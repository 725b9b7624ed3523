-- ===== src/Prelude/Maps.antt =====
-- `Map` and `Set` of JavaScript, in insertion order: a write to a present key keeps its place.
use Prim.Native.Nat.{◌≤◌}
use mathlib.Core.Path.{◌≡◌, refl}
use mathlib.Core.List.{List, [], ◌∷◌, ◌++◌, map}
use mathlib.Core.Option.{Option, none, some}
use native.Mathlib.Omega.{arith}
use synth_agent_runtime.Prelude.Tests.{if◌then◌else◌}
use synth_agent_runtime.Prelude.Keys.{Eq, ◌==◌}
use synth_agent_runtime.Prelude.Lists.{length, includes}

abbrev pub Map {ℓ κ} : Type ℓ → Type κ → Type (ℓ ⊔ κ)
Map K V = List (K × V)

module _ {ℓ κ} {K : Type ℓ} {V : Type κ} ⦃e : Eq K⦄ where
  -- `entries.get(k)`
  unfoldable pub lookup : K → Map K V → Option V
  lookup k [] = none
  lookup k ((j, v) ∷ entries) = if j == k then some v else lookup k entries

  -- `entries.set(k, v)`
  unfoldable pub insert : K → V → Map K V → Map K V
  insert k v [] = (k, v) ∷ []
  insert k v ((j, w) ∷ entries) = if j == k then (j, v) ∷ entries else (j, w) ∷ insert k v entries

  -- `entries.delete(k)`
  unfoldable pub erase : K → Map K V → Map K V
  erase k [] = []
  erase k ((j, v) ∷ entries) = let rest = erase k entries in if j == k then rest else (j, v) ∷ rest

  pub lookup-insert :
      (k j : K) (v : V) (entries : Map K V)
      → lookup j (insert k v entries) ≡ (if k == j then some v else lookup j entries)
  unfolding lookup insert
  lookup-insert k j v [] = refl
  lookup-insert k j v ((i, w) ∷ entries) =
      ground (arith, e.same_iff k j, e.same_iff i k, e.same_iff i j, lookup-insert k j v entries)

  pub lookup-erase :
      (k j : K) (entries : Map K V)
      → lookup j (erase k entries) ≡ (if k == j then none else lookup j entries)
  unfolding lookup erase
  lookup-erase k j [] = ground arith
  lookup-erase k j ((i, w) ∷ entries) =
      ground (arith, e.same_iff k j, e.same_iff i k, e.same_iff i j, lookup-erase k j entries)

  pub lookup-insert_self :
      (k : K) (v : V) (entries : Map K V) → lookup k (insert k v entries) ≡ some v
  lookup-insert_self k v entries = ground (arith, lookup-insert k k v entries, e.same_iff k k)

  pub length-erase-le : (k : K) (entries : Map K V) → length (erase k entries) ≤ length entries
  unfolding erase
  length-erase-le k [] = omega arith
  length-erase-le k ((j, v) ∷ entries) = ground (arith, length-erase-le k entries)

pub ruleset map_laws = (lookup-insert, lookup-erase)

-- `[...entries.keys()]`, `[...entries.values()]`
module _ {ℓ κ} {K : Type ℓ} {V : Type κ} where
  abbrev pub keys : Map K V → List K
  keys entries = map (λ p. p.0) entries

  abbrev pub values : Map K V → List V
  values entries = map (λ p. p.1) entries

-- A `Set` is the list of its elements.
module _ {ℓ} {A : Type ℓ} ⦃e : Eq A⦄ where
  -- `s.add(a)`
  unfoldable pub add : A → List A → List A
  add a s = if includes a s then s else s ++ a ∷ []

  -- `s.delete(a)`
  unfoldable pub delete : A → List A → List A
  delete a [] = []
  delete a (x ∷ s) = let rest = delete a s in if x == a then rest else x ∷ rest
