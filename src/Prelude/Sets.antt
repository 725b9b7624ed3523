-- ===== src/Prelude/Sets.antt =====
-- What a set has after an element is added or deleted, and what a map has under the keys that are kept.
use mathlib.Core.Path.{◌≡◌, refl}
use mathlib.Core.Bool.{Bool, true, false, ◌&&◌, ◌||◌}
use mathlib.Core.List.{List, [], ◌∷◌, ◌++◌}
use mathlib.Core.Option.{none}
use native.Mathlib.Omega.{arith}
use synth_agent_runtime.Prelude.Tests.{if◌then◌else◌}
use synth_agent_runtime.Prelude.Keys.{Eq, list_eq, nat_eq, option_eq, pair_eq, string_eq, ◌==◌}
use synth_agent_runtime.Prelude.Lists.{any, includes, keep}
use synth_agent_runtime.Prelude.Maps.{Map, add, delete, keys, lookup}

module _ {ℓ} {A : Type ℓ} where
  pub any-append : (p : A → Bool) (xs ys : List A) → any p (xs ++ ys) ≡ any p xs || any p ys
  unfolding any
  any-append p [] ys = refl
  any-append p (x ∷ xs) ys = ground (arith, any-append p xs ys)

module _ {ℓ} {A : Type ℓ} ⦃e : Eq A⦄ where
  any-includes :
      (p : A → Bool) (a : A) (s : List A) → includes a s ≡ true → p a ≡ true → any p s ≡ true
  unfolding any includes
  any-includes p a [] h k = absurd (ground arith)
  any-includes p a (x ∷ s) h k = ground (arith, e.same_iff x a, any-includes p a s)

  pub any-add : (p : A → Bool) (a : A) (s : List A) → any p (add a s) ≡ (p a || any p s)
  unfolding add any
  any-add p a s = ground (arith, any-includes p a s, any-append p s (a ∷ []))

  pub includes-append :
      (x : A) (s t : List A) → includes x (s ++ t) ≡ (includes x s || includes x t)
  unfolding includes
  includes-append x [] t = refl
  includes-append x (y ∷ s) t = ground (arith, includes-append x s t)

  pub includes-add : (a x : A) (s : List A) → includes x (add a s) ≡ ((a == x) || includes x s)
  unfolding add includes
  includes-add a x s = ground (arith, e.same_iff a x, includes-append x s (a ∷ []))

  pub includes-delete :
      (a x : A) (s : List A) → (a == x) ≡ false → includes x (delete a s) ≡ includes x s
  unfolding delete includes
  includes-delete a x [] h = refl
  includes-delete a x (y ∷ s) h =
      ground (arith, e.same_iff y a, e.same_iff y x, e.same_iff a x, includes-delete a x s h)

  pub any-delete : (p : A → Bool) (a : A) (s : List A) → p a ≡ false → any p (delete a s) ≡ any p s
  unfolding delete any
  any-delete p a [] h = refl
  any-delete p a (y ∷ s) h = ground (arith, e.same_iff y a, any-delete p a s h)

  pub includes-keep :
      (p : A → Bool) (x : A) (s : List A) → includes x (keep p s) ≡ (p x && includes x s)
  unfolding keep includes
  includes-keep p x [] = ground arith
  includes-keep p x (y ∷ s) = ground (arith, e.same_iff y x, includes-keep p x s)

module _ {ℓ κ} {K : Type ℓ} {V : Type κ} ⦃e : Eq K⦄ where
  pub lookup_not_key :
      (k : K) (entries : Map K V) → includes k (keys entries) ≡ false → lookup k entries ≡ none
  unfolding lookup includes
  lookup_not_key k [] h = refl
  lookup_not_key k ((j, v) ∷ entries) h = ground (arith, lookup_not_key k entries)

  pub lookup-keep :
      (p : K → Bool) (k : K) (entries : Map K V)
      → lookup k (keep (λ entry. p entry.0) entries) ≡ (if p k then lookup k entries else none)
  unfolding lookup keep
  lookup-keep p k [] = ground arith
  lookup-keep p k ((j, v) ∷ entries) = ground (arith, e.same_iff j k, lookup-keep p k entries)
