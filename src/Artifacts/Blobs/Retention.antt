-- ===== src/Artifacts/Blobs/Retention.antt =====
-- What pruning the store leaves.
use synth_agent_runtime.Prelude.{
  Bool, Bool-cases, List, [], arith, beq_eq, false, includes, inl, inr, keep, list_eq, lookup,
  nat_eq, not, option_eq, pair_eq, some, string_eq, true, ℕ, ◌&&◌, ◌+◌, ◌==◌, ◌||◌, ◌∷◌, ◌≡◌,
}
use synth_agent_runtime.Workspace.Snapshot.{Text}
use synth_agent_runtime.Artifacts.Blobs.{
  BlobStore, File, PruneOptions, is_pruned, is_young, prune, sizes,
}

sizes-keep :
    (p : Text × File → Bool) (files : List (Text × File))
    → sizes (keep p files) + sizes (keep (λ f. not (p f)) files) ≡ sizes files
unfolding sizes keep
sizes-keep p [] = omega arith
sizes-keep p ((d, f) ∷ files) = ground (arith, sizes-keep p files)

lookup-keep :
    (p : Text × File → Bool) (d : Text) (f : File) (files : List (Text × File))
    → lookup d files ≡ some f
    → p (d, f) ≡ true
    → lookup d (keep p files) ≡ some f
unfolding lookup keep
lookup-keep p d f [] h k = absurd (cc)
lookup-keep p d f ((j, g) ∷ files) h k = elim (Bool-cases (p (j, g))) [
  | inl kept ↦ rw kept (ground (arith, lookup-keep p d f files))
  | inr dropped ↦ rw dropped (elim (Bool-cases (j == d)) [
    | inl y ↦ absurd (differs dropped (beq_eq j d y) (here y))
    | inr other ↦ lookup-keep p d f files (ground arith) k
  ])
]
  where
    here : (j == d) ≡ true → g ≡ f
    here y = ground arith

    differs : p (j, g) ≡ false → j ≡ d → g ≡ f → ⊥
    differs dropped e e' = absurd (cc)

-- A sweep deletes no object that is to be kept, or that is younger than the grace period; and the
-- bytes that it reports as freed are just those by which the store has become smaller.
pub prune_lem :
    (s : BlobStore) (options : PruneOptions) (now : ℕ) (digest : Text) (file : File)
    → lookup digest s.objects ≡ some file
    → includes digest options.kept || is_young options.older_than_ms now file ≡ true
    → let (report, s') = prune s options now in
      (lookup digest s'.objects ≡ some file)
      × (report.freed_bytes + sizes s'.objects ≡ sizes s.objects)
unfolding prune
prune_lem s options now digest file h k = (
  lookup-keep (λ o. not (is_pruned options now o)) digest file s.objects h
      (spared (includes digest options.kept) (is_young options.older_than_ms now file) k),
  sizes-keep (is_pruned options now) s.objects,
)
  where
    spared : (a b : Bool) → a || b ≡ true → not (not a && not b) ≡ true
    spared a b t = ground arith
