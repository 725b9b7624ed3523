-- ===== src/Gateway/Continuations.antt =====
-- src/inference/gateway/continuation-store.ts: `InMemoryContinuationStore` of values `T`, as the
-- records in the order of their last writing. The clock is the argument `now`.
pub mod Bounds
mod Tests
use synth_agent_runtime.Prelude.{
  Bool, Map, Option, String, [], erase, false, if◌then◌else◌, insert, keep, leb, length, list_eq,
  lookup, ltb, nat_eq, none, not, option_eq, pair_eq, some, string_eq, ℕ, ◌-◌, ◌==◌, ◌∷◌,
}

pub record ContinuationRecord (T : Type 0) : Type 0 where
  pub id : String
  pub value : T
  pub created_at : ℕ
  pub expires_at : Option ℕ
  pub tenant_id : Option String

abbrev pub Records : Type 0 → Type 0
Records T = Map String (ContinuationRecord T)

module _ {T : Type 0} where
  -- `while (size > maxEntries) { if (!id) break; … }`, oldest first
  unfoldable pub evict : ℕ → Records T → Records T
  evict max_entries [] = []
  evict max_entries ((id, r) ∷ rs) =
      let rest = evict max_entries rs in
      if ltb max_entries (length ((id, r) ∷ rs))
      then (if id == "" then (id, r) ∷ rs else rest)
      else (id, r) ∷ rs

  unfoldable pub put_continuation : ℕ → Records T → ContinuationRecord T → Records T
  unfolding evict
  put_continuation max_entries records r = evict max_entries (insert r.id r (erase r.id records))

  unfoldable pub is_expired : ℕ → ContinuationRecord T → Bool
  is_expired now r = elim r.expires_at [ none ↦ false | some at_ms ↦ leb at_ms now ]

  -- what is found is given out, unless it has expired or is another tenant's
  unfoldable pub give_out :
      Records T
      → String
      → Option String
      → ℕ
      → ContinuationRecord T
      → Option (ContinuationRecord T) × Records T
  unfolding is_expired
  give_out records id tenant_id now r =
      if is_expired now r
      then (none, erase id records)
      else (if tenant_id == r.tenant_id then (some r, records) else (none, records))

  unfoldable pub get_found :
      Records T
      → String
      → Option String
      → ℕ
      → Option (ContinuationRecord T)
      → Option (ContinuationRecord T) × Records T
  unfolding give_out
  get_found records id tenant_id now none = (none, records)
  get_found records id tenant_id now (some r) = give_out records id tenant_id now r

  unfoldable pub get_continuation :
      Records T → String → Option String → ℕ → Option (ContinuationRecord T) × Records T
  unfolding get_found
  get_continuation records id tenant_id now = get_found records id tenant_id now (lookup id records)

  abbrev pub delete_continuation : Records T → String → Records T
  delete_continuation records id = erase id records

  unfoldable pub prune_continuations : Records T → ℕ → ℕ × Records T
  unfolding is_expired
  prune_continuations records now =
      let kept = keep (λ (p : String × ContinuationRecord T). not (is_expired now p.1)) records in
      (length records - length kept, kept)
