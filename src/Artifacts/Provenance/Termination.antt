-- ===== src/Artifacts/Provenance/Termination.antt =====
-- The provenance walk ends.
use synth_agent_runtime.Prelude.{
  List, Option, [], arith, false, if_elim, includes, length, list_beq_iff, list_eq, lookup, ltb,
  nat_eq, none, option_eq, pair_eq, string_eq, suc, true, zero, ℕ, ◌+◌, ◌∷◌, ◌≡◌, ◌≢◌, ◌≤◌,
}
use synth_agent_runtime.Workspace.Snapshot.{Text}
use synth_agent_runtime.Artifacts.Provenance.{
  ArtifactIndex, ProvenanceReport, empty_report, inputs_of, push_all, visit, walk, walk_fuel,
  walk_provenance, weight,
}

length-push_all :
    (xs : List Text) (depth : ℕ) (stack : List (Text × ℕ))
    → length (push_all xs depth stack) ≡ length xs + length stack
unfolding push_all
length-push_all [] depth stack = omega arith
length-push_all (x ∷ xs) depth stack = omega (arith, length-push_all xs depth ((x, depth) ∷ stack))

weight-le :
    (id : Text) (seen : List Text) (index : ArtifactIndex)
    → weight (id ∷ seen) index ≤ weight seen index
unfolding weight includes
weight-le id seen [] = omega arith
weight-le id seen ((k, r) ∷ index) = ground (arith, weight-le id seen index)

weight-see :
    (id : Text) (seen : List Text) (index : ArtifactIndex)
    → includes id seen ≡ false
    → length (inputs_of (lookup id index)) + weight (id ∷ seen) index ≤ weight seen index
unfolding weight includes lookup
weight-see id seen [] h = omega arith
weight-see id seen ((k, r) ∷ index) h =
    ground (
      arith,
      weight-le id seen index,
      weight-see id seen index,
      list_beq_iff k id,
      list_beq_iff id k,
    )

walk-enough :
    (index : ArtifactIndex) (max_depth fuel : ℕ) (seen : List Text) (stack : List (Text × ℕ))
    (report : ProvenanceReport)
    → length stack + weight seen index ≤ fuel
    → walk index max_depth fuel seen stack report ≢ none
unfolding walk
walk-enough index max_depth fuel seen [] report h = λ e. absurd (cc)
walk-enough index max_depth zero seen (top ∷ stack) report h = absurd (omega arith)
walk-enough index max_depth (suc fuel) seen ((id, depth) ∷ stack) report h =
    let found = lookup id index in
    let NotNone : Option ProvenanceReport → Type 0 = λ o. o ≢ none in
    if_elim NotNone (includes id seen) _ _
      (λ _. walk-enough index max_depth fuel seen stack report (omega arith))
      (λ unseen.
        if_elim NotNone (ltb max_depth depth) _ _
          (λ _.
            walk-enough index max_depth fuel seen stack (record report { is_truncated = true })
              (omega arith))
          (λ _.
            walk-enough index max_depth fuel (id ∷ seen)
              (push_all (inputs_of found) (depth + 1) stack) (visit id found report)
              (omega (
                arith,
                length-push_all (inputs_of found) (depth + 1) stack,
                weight-see id seen index unseen,
              ))))

-- The walk always comes to a report, whatever cycles the index has and whatever the depth limit is.
pub walk_provenance-ends :
    (index : ArtifactIndex) (digest : Text) (max_depth : ℕ)
    → walk_provenance index digest max_depth ≢ none
unfolding walk_provenance
walk_provenance-ends index digest max_depth =
    walk-enough index max_depth (walk_fuel index) [] ((digest, 0) ∷ []) empty_report (omega arith)
