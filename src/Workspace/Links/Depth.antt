-- ===== src/Workspace/Links/Depth.antt =====
-- The limit on the links that are followed.
use native.Mathlib.Nat
use synth_agent_runtime.Workspace.Paths.{is_absolute}
use synth_agent_runtime.Prelude.{
  Bool-cases, List, Option, [], includes, inl, inr, list_eq, nat_eq, option_eq, pair_eq, refl, some,
  string_eq, suc, zero, ℕ, ◌+◌, ◌∙◌, ◌∷◌, ◌≡◌,
}
use synth_agent_runtime.Workspace.Snapshot.{Text}
use synth_agent_runtime.Workspace.Links.{
  Stop, SymlinkTargetResolution, at_end, at_link, follow, reenter, refused, resolve_link_target,
  resolve_symlink_target, too_deep,
}

abbrev pub IsTooDeep : SymlinkTargetResolution → Type 0
IsTooDeep r = (path : Text) × (r ≡ too_deep path)

module _ (read_link : Text → Option Text) (link_path target : Text) where
  follow_once_more :
      (budget : ℕ) (visited : List Text) (stop : Stop)
      → ¬ IsTooDeep (follow read_link link_path target budget visited stop)
      → follow read_link link_path target (suc budget) visited stop
        ≡ follow read_link link_path target budget visited stop
  unfolding follow
  follow_once_more zero visited (at_end dir) h = refl
  follow_once_more (suc budget) visited (at_end dir) h = refl
  follow_once_more zero visited (refused p t) h = refl
  follow_once_more (suc budget) visited (refused p t) h = refl
  follow_once_more zero visited (at_link c t pending) h = elim (Bool-cases (includes c visited)) [
    | inl e ↦ rw e refl
    | inr e ↦ absurd (h (c, rw e refl))
  ]
  follow_once_more (suc budget) visited (at_link c t pending) h =
      elim (Bool-cases (includes c visited)) [
        | inl e ↦ rw e refl
        | inr e ↦ rw e (
            follow_once_more budget (c ∷ visited)
              (reenter read_link link_path target c t (resolve_link_target c t) pending)
              (rw e at h))
      ]

  follow_more :
      (more budget : ℕ) (visited : List Text) (stop : Stop)
      → ¬ IsTooDeep (follow read_link link_path target budget visited stop)
      → follow read_link link_path target (more + budget) visited stop
        ≡ follow read_link link_path target budget visited stop
  follow_more zero budget visited stop h = rw (Nat.zero-add) refl
  follow_more (suc more) budget visited stop h =
      let once = follow_more more budget visited stop h in
      rw (Nat.suc-add) (follow_once_more (more + budget) visited stop (rw once h) ∙ once)

  -- A resolution that the limit does not cut off is the same under any larger limit.
  pub resolve_symlink_target-more :
      (limit more : ℕ)
      → ¬ IsTooDeep (resolve_symlink_target read_link link_path target (some limit))
      → resolve_symlink_target read_link link_path target (some (more + limit))
        ≡ resolve_symlink_target read_link link_path target (some limit)
  unfolding resolve_symlink_target
  resolve_symlink_target-more limit more h = elim (Bool-cases (is_absolute target)) [
    | inl e ↦ rw e refl
    | inr e ↦ rw e (follow_more more limit [] _ (rw e at h))
  ]
