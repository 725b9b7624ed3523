-- ===== src/Prelude/Lists.antt =====
-- Lists measured by native numbers, and the list methods of the source.
use Prim.Native.Nat.{ℕ, zero, suc, ◌+◌, ◌≤◌}
use mathlib.Core.Logic.{◌≢◌, inl, inr}
use mathlib.Core.Path.{subst, ◌≡◌, refl, ap}
use mathlib.Core.Bool.{true, Bool, false, ◌||◌}
use mathlib.Core.List.{List, [], ◌∷◌, ◌++◌}
use mathlib.Core.Option.{Option, none, some}
use native.Mathlib.Omega.{arith}
use native.Mathlib.Nat
use synth_agent_runtime.Prelude.Tests.{Bool-cases, if_elim, if◌then◌else◌}
use synth_agent_runtime.Prelude.Keys.{Eq, list_eq, nat_eq, option_eq, string_eq, ◌==◌}

module _ {ℓ} {A : Type ℓ} where
  abbrev pub length : List A → ℕ
  length [] = 0
  length (x ∷ xs) = suc (length xs)

  pub length-append : (xs ys : List A) → length (xs ++ ys) ≡ length xs + length ys
  length-append [] ys = omega arith
  length-append (x ∷ xs) ys = omega (arith, length-append xs ys)

  abbrev pub take : ℕ → List A → List A
  take zero xs = []
  take (suc n) [] = []
  take (suc n) (x ∷ xs) = x ∷ take n xs

  abbrev pub drop : ℕ → List A → List A
  drop zero xs = xs
  drop (suc n) [] = []
  drop (suc n) (x ∷ xs) = drop n xs

  pub drop-nil : (n : ℕ) → drop n [] ≡ []
  drop-nil zero = refl
  drop-nil (suc n) = refl

  pub take-append-drop : (n : ℕ) (xs : List A) → take n xs ++ drop n xs ≡ xs
  take-append-drop zero xs = refl
  take-append-drop (suc n) [] = refl
  take-append-drop (suc n) (x ∷ xs) = ap (λ r. x ∷ r) (take-append-drop n xs)

  -- `xs.at(-1)`
  unfoldable pub last : List A → Option A
  last [] = none
  last (x ∷ []) = some x
  last (x ∷ y ∷ ys) = last (y ∷ ys)

  -- `xs.slice(0, -1)`, `xs.pop()`
  unfoldable pub drop_last : List A → List A
  drop_last [] = []
  drop_last (x ∷ []) = []
  drop_last (x ∷ y ∷ ys) = x ∷ drop_last (y ∷ ys)

  -- `xs.find(p)`
  unfoldable pub find : (A → Bool) → List A → Option A
  find p [] = none
  find p (x ∷ xs) = if p x then some x else find p xs

  -- `xs.filter(p)`
  unfoldable pub keep : (A → Bool) → List A → List A
  keep p [] = []
  keep p (x ∷ xs) = let rest = keep p xs in if p x then x ∷ rest else rest

  pub length-keep-le : (p : A → Bool) (xs : List A) → length (keep p xs) ≤ length xs
  unfolding keep
  length-keep-le p [] = omega arith
  length-keep-le p (x ∷ xs) = ground (arith, length-keep-le p xs)

  -- `xs.some(p)`
  unfoldable pub any : (A → Bool) → List A → Bool
  any p [] = false
  any p (x ∷ xs) = p x || any p xs

  -- A predicate by recursion computes to tuples, which the tactics read and build.
  abbrev pub All {κ} : (A → Type κ) → List A → Type κ
  All P [] = Unit
  All P (x ∷ xs) = P x × All P xs

-- `xs.includes(a)`
module _ {ℓ} {A : Type ℓ} ⦃e : Eq A⦄ where
  unfoldable pub includes : A → List A → Bool
  includes a [] = false
  includes a (x ∷ xs) = (x == a) || includes a xs

module _ {ℓ} {A : Type ℓ} where
  pub take-length-le : (n : ℕ) (xs : List A) → length (take n xs) ≤ n
  take-length-le zero xs = omega arith
  take-length-le (suc n) [] = omega arith
  take-length-le (suc n) (x ∷ xs) = omega (arith, take-length-le n xs)

  -- Two pages of a list, the second from where the first one ends, are one larger page.
  pub take-drop-take :
      (n k : ℕ) (xs : List A)
      → take n xs ++ take k (drop (length (take n xs)) xs) ≡ take n xs ++ take k (drop n xs)
  take-drop-take zero k xs = refl
  take-drop-take (suc n) k [] = refl
  take-drop-take (suc n) k (x ∷ xs) = ap (λ r. x ∷ r) (take-drop-take n k xs)

  pub take_add : (n k : ℕ) (xs : List A) → take n xs ++ take k (drop n xs) ≡ take (n + k) xs
  take_add zero k xs = rw (Nat.zero-add)
  take_add (suc n) zero [] = rw (Nat.suc-add)
  take_add (suc n) (suc k) [] = rw (Nat.suc-add)
  take_add (suc n) k (x ∷ xs) = rw (Nat.suc-add) (ap (λ r. x ∷ r) (take_add n k xs))

  pub drop-drop : (n k : ℕ) (xs : List A) → drop k (drop n xs) ≡ drop (n + k) xs
  drop-drop zero k xs = rw (Nat.zero-add)
  drop-drop (suc n) zero [] = rw (Nat.suc-add)
  drop-drop (suc n) (suc k) [] = rw (Nat.suc-add)
  drop-drop (suc n) k (x ∷ xs) = rw (Nat.suc-add) (drop-drop n k xs)

module _ {ℓ} {A : Type ℓ} where
  pub All-map {κ μ} :
      (P : A → Type κ) (Q : A → Type μ) (xs : List A) → ((x : A) → P x → Q x) → All P xs → All Q xs
  All-map P Q [] f h = tt
  All-map P Q (x ∷ xs) f h = (f x h.0, All-map P Q xs f h.1)

  pub All-both {κ μ} :
      (P : A → Type κ) (Q : A → Type μ) (xs : List A)
      → All P xs
      → All Q xs
      → All (λ x. P x × Q x) xs
  All-both P Q [] h k = tt
  All-both P Q (x ∷ xs) h k = ((h.0, k.0), All-both P Q xs h.1 k.1)

  pub All-append {κ} : (P : A → Type κ) (xs ys : List A) → All P xs → All P ys → All P (xs ++ ys)
  All-append P [] ys h k = k
  All-append P (x ∷ xs) ys h k = (h.0, All-append P xs ys h.1 k)

  pub All-keep {κ} : (P : A → Type κ) (p : A → Bool) (xs : List A) → All P xs → All P (keep p xs)
  unfolding keep
  All-keep P p [] h = tt
  All-keep P p (x ∷ xs) h =
      if_elim (All P) (p x) (x ∷ keep p xs) (keep p xs) (λ _. (h.0, All-keep P p xs h.1))
        (λ _. All-keep P p xs h.1)

  -- What is kept passes the test.
  pub keep_passes : (p : A → Bool) (xs : List A) → All (λ x. p x ≡ true) (keep p xs)
  unfolding keep
  keep_passes p [] = tt
  keep_passes p (x ∷ xs) =
      if_elim (All (λ y. p y ≡ true)) (p x) (x ∷ keep p xs) (keep p xs) (λ t. (t, keep_passes p xs))
        (λ _. keep_passes p xs)

  pub find-All {κ} :
      (P : A → Type κ) (p : A → Bool) (xs : List A) {x : A} → find p xs ≡ some x → All P xs → P x
  unfolding find
  find-All P p [] h v = absurd (ground arith)
  find-All P p (y ∷ xs) {x} h v = elim (Bool-cases (p y)) [
    | inl t ↦ subst P (ground arith) v.0
    | inr f ↦ find-All P p xs (ground arith) v.1
  ]

  pub find-any : (p : A → Bool) (xs : List A) → any p xs ≡ true → find p xs ≢ none
  unfolding find any
  find-any p [] h = λ e. cc
  find-any p (x ∷ xs) h = ground (arith, find-any p xs)

  pub keep-any : (p : A → Bool) (xs : List A) → any p xs ≡ true → keep p xs ≢ []
  unfolding keep any
  keep-any p [] h = λ e. cc
  keep-any p (x ∷ xs) h = ground (arith, keep-any p xs)

module _ {ℓ} {A : Type ℓ} where
  pub take-length_append : (xs ys : List A) → take (length xs) (xs ++ ys) ≡ xs
  take-length_append [] ys = refl
  take-length_append (x ∷ xs) ys = ap (λ r. x ∷ r) (take-length_append xs ys)

  pub drop-length_append : (xs ys : List A) → drop (length xs) (xs ++ ys) ≡ ys
  drop-length_append [] ys = refl
  drop-length_append (x ∷ xs) ys = drop-length_append xs ys
