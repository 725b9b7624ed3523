-- ===== src/Gym/Patch/Lines.antt =====
-- Which patches are taken for tampering.
use synth_agent_runtime.Prelude.{
  Bool, Bool-cases, List, [], add, any, any-add, any-append, arith, inl, inr, list_eq, nat_eq,
  option_eq, pair_eq, push_unit, refl, split_at, string_eq, ℕ, ◌++◌, ◌==◌, ◌||◌, ◌∷◌, ◌≡◌,
}
use synth_agent_runtime.Workspace.Snapshot.{Text}
use synth_agent_runtime.Execution.TextReplace.{line_feed}
use synth_agent_runtime.Gym.Patch.{
  add_paths, is_protected, is_tampering, line_paths, lines_paths, parse_patch_paths,
}

-- Adding paths to a set neither hides one nor brings in another.
any-add_paths :
    (f : Text → Bool) (paths ps : List Text)
    → any f (add_paths paths ps) ≡ (any f paths || any f ps)
unfolding any
any-add_paths f paths [] = ground arith
any-add_paths f paths (p ∷ ps) = ground (arith, any-add_paths f (add p paths) ps, any-add f p paths)

any-lines_paths :
    (f : Text → Bool) (paths : List Text) (lines : List Text)
    → any f (lines_paths paths lines) ≡ (any f paths || any (λ line. any f (line_paths line)) lines)
unfolding any lines_paths
any-lines_paths f paths [] = ground arith
any-lines_paths f paths (line ∷ lines) = ground (
  arith,
  any-lines_paths f (add_paths paths (line_paths line)) lines,
  any-add_paths f paths (line_paths line),
)

-- A patch is taken for tampering just if one of its lines mentions a protected path.
pub is_tampering-parse_patch_paths :
    (patch : Text)
    → is_tampering (parse_patch_paths patch)
      ≡ any (λ line. any is_protected (line_paths line)) (split_at line_feed patch)
unfolding is_tampering parse_patch_paths any
is_tampering-parse_patch_paths patch = any-lines_paths is_protected [] (split_at line_feed patch)

push_unit-push_unit :
    (x y : ℕ) (ps qs : List Text)
    → push_unit x (push_unit y ps ++ qs) ≡ push_unit x (push_unit y ps) ++ qs
unfolding push_unit
push_unit-push_unit x y [] qs = refl
push_unit-push_unit x y (p ∷ ps) qs = refl

push_unit-split_at :
    (x c : ℕ) (text : Text) (qs : List Text)
    → push_unit x (split_at c text ++ qs) ≡ push_unit x (split_at c text) ++ qs
unfolding split_at push_unit
push_unit-split_at x c [] qs = refl
push_unit-split_at x c (y ∷ text) qs = elim (Bool-cases (y == c)) [
  | inl h ↦ rw h refl
  | inr h ↦ rw h (push_unit-push_unit x y (split_at c text) qs)
]

-- `split` of two texts with a separator in between is the one after the other.
split_at-joined :
    (c : ℕ) (text more : Text) → split_at c (text ++ c ∷ more) ≡ split_at c text ++ split_at c more
unfolding split_at
split_at-joined c [] more = ground (arith, nat_eq.same_iff c c)
split_at-joined c (x ∷ text) more = elim (Bool-cases (x == c)) [
  | inl h ↦ rw (h, split_at-joined c text more) refl
  | inr h ↦ rw (h, split_at-joined c text more) (push_unit-split_at x c text (split_at c more))
]

-- Lines put before or behind a patch do not hide what it mentions: two patches with a line feed
-- between them are taken for tampering just if one of them is.
pub is_tampering-joined :
    (patch more : Text)
    → is_tampering (parse_patch_paths (patch ++ line_feed ∷ more))
      ≡ (is_tampering (parse_patch_paths patch) || is_tampering (parse_patch_paths more))
is_tampering-joined patch more =
    rw
      (
        is_tampering-parse_patch_paths (patch ++ line_feed ∷ more),
        is_tampering-parse_patch_paths patch,
        is_tampering-parse_patch_paths more,
        split_at-joined line_feed patch more,
      )
      (any-append (λ line. any is_protected (line_paths line)) (split_at line_feed patch)
        (split_at line_feed more))
