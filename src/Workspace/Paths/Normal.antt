-- ===== src/Workspace/Paths/Normal.antt =====
-- What a normalized path is, and that a path that does not escape stays where it is resolved.
use synth_agent_runtime.Prelude.{
  All, All-append, All-both, All-map, Lacks, Lacks-split_at, Lacks-split_at_other, List,
  Option-cases, [], ap, append-nil, append_assoc, arith, drop_last, false, if_elim, if◌then◌else◌,
  includes, inl, inr, join_with, length, length-append, list_beq, list_eq, nat_eq, none,
  option_beq_iff, option_eq, pair_eq, refl, some, split_at, split_at-join_with, string_eq, subst,
  sym, ℕ, ◌++◌, ◌==◌, ◌∙◌, ◌∷◌, ◌≡◌,
}
use synth_agent_runtime.Workspace.Snapshot.{Text}
use synth_agent_runtime.Workspace.Paths.{
  above, climbs, depth_after, dot_dot, enter, escapes_workspace, is_skipped, next_depth,
  normal_parts, normalize_relative, raw_parts, slash, walk, with_slashes,
}

abbrev pub IsName : Text → Type 0
IsName part =
    (is_skipped part ≡ false) × ((part == dot_dot) ≡ false) × Lacks slash part × Lacks 92 part

drop_last-append :
    {A : Type 0} (base : List A) (x : A) (xs : List A)
    → drop_last (base ++ x ∷ xs) ≡ base ++ drop_last (x ∷ xs)
unfolding drop_last
drop_last-append [] x xs = refl
drop_last-append (b ∷ []) x xs = refl
drop_last-append (b ∷ c ∷ base) x xs = ap (λ r. b ∷ r) (drop_last-append (c ∷ base) x xs)

length-drop_last : {A : Type 0} (x : A) (xs : List A) → length (drop_last (x ∷ xs)) ≡ length xs
unfolding drop_last
length-drop_last x [] = refl
length-drop_last x (y ∷ ys) = omega (arith, length-drop_last y ys)

-- One part that does not climb above `parts` changes only `parts`, and the depth is its length.
enter_inside :
    (base parts : List Text) (raw : Text) {depth : ℕ}
    → next_depth (length parts) raw ≡ some depth
    → (enter (base ++ parts) raw ≡ base ++ enter parts raw) × (depth ≡ length (enter parts raw))
unfolding next_depth enter above drop_last
enter_inside base [] raw h = ground (arith, append-nil base)
enter_inside base (p ∷ parts) raw h = ground (
  arith,
  drop_last-append base p parts,
  length-drop_last p parts,
  length-append parts (raw ∷ []),
  append_assoc base (p ∷ parts) (raw ∷ []),
)

-- A path whose parts do not climb above `parts` stays under `base`.
pub walk_inside :
    (base parts : List Text) (raws : List Text) {depth : ℕ}
    → depth_after (some (length parts)) raws ≡ some depth
    → walk (base ++ parts) raws ≡ base ++ walk parts raws
unfolding walk depth_after
walk_inside base parts [] h = refl
walk_inside base parts (raw ∷ rest) {depth} h =
    elim (Option-cases (next_depth (length parts) raw)) [
      | inl e ↦ absurd (cc)
      | inr (d, e) ↦
          let inside = enter_inside base parts raw e in
          let later : depth_after (some (length (enter parts raw))) rest ≡ some depth =
            subst (λ n. depth_after (some n) rest ≡ some depth) inside.1
              (subst (λ o. depth_after o rest ≡ some depth) e h) in
          rw inside.0 (walk_inside base (enter parts raw) rest later)
    ]

-- A path that does not escape, resolved in any directory, leads to its normal parts under it.
pub walk-under :
    (base : List Text) (path : Text)
    → escapes_workspace path ≡ false
    → walk base (raw_parts path) ≡ base ++ normal_parts path
unfolding escapes_workspace climbs normal_parts
walk-under base path h = elim (Option-cases (depth_after (some 0) (raw_parts path))) [
  | inl e ↦ absurd (ground (arith, option_beq_iff (depth_after (some 0) (raw_parts path)) none))
  | inr (d, e) ↦ rw (append-nil) at (walk_inside base [] (raw_parts path) e)
]

-- Parts that no separator and no backslash stands in.
abbrev pub IsRaw : Text → Type 0
IsRaw part = Lacks slash part × Lacks 92 part

Lacks-with_slashes : (path : Text) → Lacks 92 (with_slashes path)
unfolding with_slashes includes
Lacks-with_slashes [] = refl
Lacks-with_slashes (c ∷ path) = ground (arith, Lacks-with_slashes path)

with_slashes_same : (path : Text) → Lacks 92 path → with_slashes path ≡ path
unfolding with_slashes includes
with_slashes_same [] h = refl
with_slashes_same (c ∷ path) h = ground (arith, with_slashes_same path)

pub raw_parts-IsRaw : (path : Text) → All IsRaw (raw_parts path)
unfolding raw_parts
raw_parts-IsRaw path =
    All-both (Lacks slash) (Lacks 92) (split_at slash (with_slashes path))
      (Lacks-split_at slash (with_slashes path))
      (Lacks-split_at_other slash 92 (with_slashes path) (Lacks-with_slashes path))

pub All-drop_last : {A : Type 0} (P : A → Type 0) (xs : List A) → All P xs → All P (drop_last xs)
unfolding drop_last
All-drop_last P [] h = tt
All-drop_last P (x ∷ []) h = tt
All-drop_last P (x ∷ y ∷ xs) h = (h.0, All-drop_last P (y ∷ xs) h.1)

enter-IsName :
    (parts : List Text) (raw : Text) → All IsName parts → IsRaw raw → All IsName (enter parts raw)
unfolding enter
enter-IsName parts raw h r =
    if_elim (All IsName) (is_skipped raw) parts
      (if raw == dot_dot then drop_last parts else parts ++ raw ∷ []) (λ _. h)
      (λ s.
        if_elim (All IsName) (raw == dot_dot) (drop_last parts) (parts ++ raw ∷ [])
          (λ _. All-drop_last IsName parts h)
          (λ d. All-append IsName parts (raw ∷ []) h ((s, d, r.0, r.1), tt)))

pub walk-IsName :
    (parts raws : List Text) → All IsName parts → All IsRaw raws → All IsName (walk parts raws)
unfolding walk
walk-IsName parts [] h r = h
walk-IsName parts (raw ∷ rest) h r =
    walk-IsName (enter parts raw) rest (enter-IsName parts raw h r.0) r.1

-- The parts of a normalized path are names: none is empty, `.` or `..`, and none has a separator.
pub normal_parts-IsName : (path : Text) → All IsName (normal_parts path)
unfolding normal_parts
normal_parts-IsName path = walk-IsName [] (raw_parts path) tt (raw_parts-IsRaw path)

walk_names : (parts names : List Text) → All IsName names → walk parts names ≡ parts ++ names
unfolding walk enter
walk_names parts [] h = sym (append-nil parts)
walk_names parts (name ∷ names) h =
    rw (h.0.0, h.0.1)
      (walk_names (parts ++ name ∷ []) names h.1 ∙ append_assoc parts (name ∷ []) names)

Lacks-append : (c : ℕ) (s t : Text) → Lacks c s → Lacks c t → Lacks c (s ++ t)
unfolding includes
Lacks-append c [] t h k = k
Lacks-append c (x ∷ s) t h k = ground (arith, Lacks-append c s t)

Lacks-join_with : (parts : List Text) → All (Lacks 92) parts → Lacks 92 (join_with slash parts)
unfolding join_with includes
Lacks-join_with [] h = refl
Lacks-join_with (part ∷ []) h = h.0
Lacks-join_with (part ∷ next ∷ parts) h =
    Lacks-append 92 part _ h.0 (ground (arith, Lacks-join_with (next ∷ parts) h.1))

-- The parts of joined names are the names.
pub raw_parts-join_with :
    (name : Text) (names : List Text)
    → All IsName (name ∷ names)
    → raw_parts (join_with slash (name ∷ names)) ≡ name ∷ names
unfolding raw_parts
raw_parts-join_with name names h =
    rw
      (with_slashes_same _
        (Lacks-join_with (name ∷ names) (All-map IsName (Lacks 92) (name ∷ names) (λ _ v. v.3) h)))
      (split_at-join_with slash name names
        (All-map IsName (Lacks slash) (name ∷ names) (λ _ v. v.2) h))

pub normal_parts-join_with :
    (names : List Text) → All IsName names → normal_parts (join_with slash names) ≡ names
unfolding normal_parts raw_parts with_slashes split_at join_with list_beq
normal_parts-join_with [] h = refl
normal_parts-join_with (name ∷ names) h =
    rw (raw_parts-join_with name names h) (walk_names [] (name ∷ names) h)

-- A normalized path is normal: normalizing it again changes nothing.
pub normalize_relative_idempotent :
    (path : Text) → normalize_relative (normalize_relative path) ≡ normalize_relative path
unfolding normalize_relative
normalize_relative_idempotent path =
    ap (join_with slash) (normal_parts-join_with (normal_parts path) (normal_parts-IsName path))
