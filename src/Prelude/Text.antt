-- ===== src/Prelude/Text.antt =====
-- The string methods of the source on lists of code units.
use synth_agent_runtime.Prelude.Lists.{All, includes}
use Prim.Native.Nat.{ℕ}
use mathlib.Core.Path.{◌≡◌, refl, ap}
use mathlib.Core.Bool.{Bool, true, false, ◌&&◌}
use mathlib.Core.List.{List, [], ◌∷◌, ◌++◌}
use native.Mathlib.Omega.{arith}
use synth_agent_runtime.Prelude.Tests.{if_elim, if◌then◌else◌}
use synth_agent_runtime.Prelude.Keys.{list_eq, nat_eq, option_eq, pair_eq, string_eq, ◌==◌}

-- `text.startsWith(prefix)`
unfoldable pub starts_with : List ℕ → List ℕ → Bool
starts_with text [] = true
starts_with [] (c ∷ prefix) = false
starts_with (d ∷ text) (c ∷ prefix) = (d == c) && starts_with text prefix

pub starts_with_append :
    (text s t : List ℕ) → starts_with text (s ++ t) ≡ true → starts_with text s ≡ true
unfolding starts_with
starts_with_append text [] t h = refl
starts_with_append [] (c ∷ s) t h = h
starts_with_append (d ∷ text) (c ∷ s) t h = ground (arith, starts_with_append text s t)

pub starts_with_trans :
    (text s t : List ℕ)
    → starts_with s t ≡ true
    → starts_with text s ≡ true
    → starts_with text t ≡ true
unfolding starts_with
starts_with_trans text s [] h k = refl
starts_with_trans text [] (c ∷ t) h k = absurd (ground arith)
starts_with_trans [] (d ∷ s) (c ∷ t) h k = k
starts_with_trans (e ∷ text) (d ∷ s) (c ∷ t) h k =
    ground (arith, starts_with_trans text s t, nat_eq.same_iff e d)

-- `text.split(c)` at a separator of one unit
unfoldable pub push_unit : ℕ → List (List ℕ) → List (List ℕ)
push_unit x [] = (x ∷ []) ∷ []
push_unit x (part ∷ parts) = (x ∷ part) ∷ parts

unfoldable pub split_at : ℕ → List ℕ → List (List ℕ)
split_at c [] = [] ∷ []
split_at c (x ∷ text) = let rest = split_at c text in if x == c then [] ∷ rest else push_unit x rest

-- `parts.join(c)`
unfoldable pub join_with : ℕ → List (List ℕ) → List ℕ
join_with c [] = []
join_with c (part ∷ []) = part
join_with c (part ∷ next ∷ parts) = part ++ c ∷ join_with c (next ∷ parts)

-- No unit of the text is the separator.
abbrev pub Lacks : ℕ → List ℕ → Type 0
Lacks c text = includes c text ≡ false

pub split_at_part : (c : ℕ) (part : List ℕ) → Lacks c part → split_at c part ≡ part ∷ []
unfolding split_at push_unit includes
split_at_part c [] h = refl
split_at_part c (x ∷ part) h = ground (arith, split_at_part c part)

pub split_at-append :
    (c : ℕ) (part text : List ℕ)
    → Lacks c part
    → split_at c (part ++ c ∷ text) ≡ part ∷ split_at c text
unfolding split_at push_unit includes
split_at-append c [] text h = ground (arith, nat_eq.same_iff c c)
split_at-append c (x ∷ part) text h = ground (arith, split_at-append c part text)

-- Parts without the separator that are joined split into the same parts.
pub split_at-join_with :
    (c : ℕ) (part : List ℕ) (parts : List (List ℕ))
    → All (Lacks c) (part ∷ parts)
    → split_at c (join_with c (part ∷ parts)) ≡ part ∷ parts
unfolding join_with
split_at-join_with c part [] h = split_at_part c part h.0
split_at-join_with c part (next ∷ parts) h =
    rw (split_at-append c part (join_with c (next ∷ parts)) h.0)
      (ap (λ r. part ∷ r) (split_at-join_with c next parts h.1))

-- No part of a split text has the separator.
Lacks-push_unit :
    (c x : ℕ) (parts : List (List ℕ))
    → (x == c) ≡ false
    → All (Lacks c) parts
    → All (Lacks c) (push_unit x parts)
unfolding push_unit includes
Lacks-push_unit c x [] d h = (ground arith, tt)
Lacks-push_unit c x (part ∷ parts) d h = (ground arith, h.1)

pub Lacks-split_at : (c : ℕ) (text : List ℕ) → All (Lacks c) (split_at c text)
unfolding split_at includes
Lacks-split_at c [] = (refl, tt)
Lacks-split_at c (x ∷ text) =
    if_elim (All (Lacks c)) (x == c) ([] ∷ split_at c text) (push_unit x (split_at c text))
      (λ _. (refl, Lacks-split_at c text))
      (λ d. Lacks-push_unit c x (split_at c text) d (Lacks-split_at c text))

-- The parts lack what the text lacks.
pub Lacks-split_at_other :
    (c d : ℕ) (text : List ℕ) → Lacks d text → All (Lacks d) (split_at c text)
unfolding split_at includes
Lacks-split_at_other c d [] h = (refl, tt)
Lacks-split_at_other c d (x ∷ text) h =
    let later : All (Lacks d) (split_at c text) = Lacks-split_at_other c d text (ground arith) in
    if_elim (All (Lacks d)) (x == c) ([] ∷ split_at c text) (push_unit x (split_at c text))
      (λ _. (refl, later)) (λ _. Lacks-push_unit d x (split_at c text) (ground arith) later)
