-- ===== src/Artifacts/Provenance/Retention.antt =====
-- src/artifacts/retention.ts: `reachableDigests` and `sweepUnreferencedBlobs` on the file-system
-- store. The digests of the index are in their normal form.
use synth_agent_runtime.Prelude.{
  All, Bool-cases, List, Option, [], add, arith, beq_refl, if_elim, includes, inl, inr, list_eq,
  lookup, map, nat_eq, none, option_eq, pair_eq, refl, some, string_eq, subst, true, ℕ, ◌++◌, ◌==◌,
  ◌∷◌, ◌≡◌,
}
use synth_agent_runtime.Workspace.Snapshot.{Text}
use synth_agent_runtime.Artifacts.Blobs.{BlobStore, File, Pruned, prune}
use synth_agent_runtime.Artifacts.Blobs.Retention.{prune_lem}
use synth_agent_runtime.Artifacts.Provenance.{
  ArtifactIndex, ArtifactRecord, ProvenanceNode, ProvenanceReport, list_records, walk_provenance,
}

abbrev pub default_max_depth : ℕ
default_max_depth = 32

abbrev pub digests_of : Option ProvenanceReport → List Text
digests_of none = []
digests_of (some report) = map (λ (n : ProvenanceNode). n.digest) report.nodes

unfoldable pub add_each : List Text → List Text → List Text
add_each reachable [] = reachable
add_each reachable (d ∷ ds) = add_each (add d reachable) ds

-- what one record adds
abbrev pub reach_one : ArtifactIndex → List Text → ArtifactRecord → List Text
reach_one index reachable r =
    add_each (add r.ref.digest reachable)
      (digests_of (walk_provenance index r.ref.digest default_max_depth))

unfoldable pub reach : ArtifactIndex → List Text → List ArtifactRecord → List Text
unfolding add_each
reach index reachable [] = reachable
reach index reachable (r ∷ rs) = reach index (reach_one index reachable r) rs

abbrev pub reachable_digests : ArtifactIndex → List Text
reachable_digests index = reach index [] (list_records index)

unfoldable pub sweep_unreferenced_blobs :
    BlobStore → ArtifactIndex → Option ℕ → ℕ → Pruned × BlobStore
sweep_unreferenced_blobs s index older_than_ms now =
    prune s (record { kept = reachable_digests index; older_than_ms = older_than_ms }) now

includes-append :
    (d x : Text) (xs : List Text) → includes d xs ≡ true → includes d (xs ++ x ∷ []) ≡ true
unfolding includes
includes-append d x [] h = absurd (cc)
includes-append d x (y ∷ xs) h = ground (arith, includes-append d x xs)

includes-append_self : (d : Text) (xs : List Text) → includes d (xs ++ d ∷ []) ≡ true
unfolding includes
includes-append_self d [] = rw (beq_refl d) refl
includes-append_self d (y ∷ xs) = ground (arith, includes-append_self d xs)

includes-add : (d x : Text) (xs : List Text) → includes d xs ≡ true → includes d (add x xs) ≡ true
unfolding add
includes-add d x xs h =
    if_elim (λ (l : List Text). includes d l ≡ true) (includes x xs) xs (xs ++ x ∷ []) (λ _. h)
      (λ _. includes-append d x xs h)

includes-add_self : (d : Text) (xs : List Text) → includes d (add d xs) ≡ true
unfolding add
includes-add_self d xs =
    if_elim (λ (l : List Text). includes d l ≡ true) (includes d xs) xs (xs ++ d ∷ []) (λ t. t)
      (λ _. includes-append_self d xs)

includes-add_each :
    (d : Text) (s ds : List Text) → includes d s ≡ true → includes d (add_each s ds) ≡ true
unfolding add_each
includes-add_each d s [] h = h
includes-add_each d s (x ∷ ds) h = includes-add_each d (add x s) ds (includes-add d x s h)

includes-reach :
    (index : ArtifactIndex) (d : Text) (s : List Text) (rs : List ArtifactRecord)
    → includes d s ≡ true
    → includes d (reach index s rs) ≡ true
unfolding reach
includes-reach index d s [] h = h
includes-reach index d s (r ∷ rs) h = includes-reach index d (reach_one index s r) rs (
    includes-add_each d (add r.ref.digest s)
      (digests_of (walk_provenance index r.ref.digest default_max_depth))
      (includes-add d r.ref.digest s h))

reach-All :
    (index : ArtifactIndex) (s : List Text) (rs : List ArtifactRecord)
    → All (λ r. includes r.ref.digest (reach index s rs) ≡ true) rs
unfolding reach
reach-All index s [] = tt
reach-All index s (r ∷ rs) = (
  includes-reach index r.ref.digest (reach_one index s r) rs (
      includes-add_each r.ref.digest (add r.ref.digest s)
        (digests_of (walk_provenance index r.ref.digest default_max_depth))
        (includes-add_self r.ref.digest s)),
  reach-All index (reach_one index s r) rs,
)

lookup-All :
    (P : ArtifactRecord → Type 0) (index : ArtifactIndex) (key : Text) (r : ArtifactRecord)
    → All P (list_records index)
    → lookup key index ≡ some r
    → P r
unfolding lookup
lookup-All P [] key r v h = absurd (cc)
lookup-All P ((k, q) ∷ index) key r v h = elim (Bool-cases (k == key)) [
  | inl y ↦ subst P (ground arith) v.0
  | inr other ↦ lookup-All P index key r v.1 (ground arith)
]

-- A sweep deletes no blob that the index has a record of: such an object is still there, with its
-- content.
pub sweep_unreferenced_blobs_lem :
    (s : BlobStore) (index : ArtifactIndex) (older_than_ms : Option ℕ) (now : ℕ) (key : Text)
    (r : ArtifactRecord) (file : File)
    → lookup key index ≡ some r
    → lookup r.ref.digest s.objects ≡ some file
    → lookup r.ref.digest (sweep_unreferenced_blobs s index older_than_ms now).1.objects ≡ some file
unfolding sweep_unreferenced_blobs
sweep_unreferenced_blobs_lem s index older_than_ms now key r file recorded h =
    let kept =
      lookup-All (λ q. includes q.ref.digest (reachable_digests index) ≡ true) index key r
        (reach-All index [] (list_records index)) recorded in
    (prune_lem s (record { kept = reachable_digests index; older_than_ms = older_than_ms }) now
      r.ref.digest file h (rw kept refl)).0
