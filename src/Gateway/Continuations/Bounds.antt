-- ===== src/Gateway/Continuations/Bounds.antt =====
-- How many continuations are kept, which, and for whom.
use native.Mathlib.Decide.{dec_lt}
use synth_agent_runtime.Prelude.{
  All, Option, String, [], ap, arith, drop, drop-nil, erase, false, if_elim, insert, length,
  list_eq, lookup, nat_eq, none, option_beq_iff, option_eq, pair_eq, refl, some, string_eq, suc,
  sym, ℕ, ◌++◌, ◌-◌, ◌==◌, ◌∙◌, ◌∷◌, ◌≡◌, ◌≤◌,
}
use synth_agent_runtime.Gateway.Continuations.{
  ContinuationRecord, Records, evict, get_continuation, get_found, give_out, is_expired,
  put_continuation,
}

module _ {T : Type 0} where
  abbrev pub IsNamed : String × ContinuationRecord T → Type 0
  IsNamed p = (p.0 == "") ≡ false

  evict-le : (n : ℕ) (rs : Records T) → All IsNamed rs → length (evict n rs) ≤ n
  unfolding evict
  evict-le n [] v = omega arith
  evict-le n ((id, r) ∷ rs) v = ground (arith, evict-le n rs)

  -- What is evicted stands in front: the newest records stay.
  evict-suffix : (n : ℕ) (rs : Records T) → All IsNamed rs → evict n rs ≡ drop (length rs - n) rs
  unfolding evict
  evict-suffix n [] v = sym (drop-nil (0 - n))
  evict-suffix n ((id, r) ∷ rs) v = elim (dec_lt n (suc (length rs))) [
    | yes more ↦
        let e : suc (length rs) - n ≡ suc (length rs - n) = omega arith in
        rw e (ground (arith, evict-suffix n rs))
    | no fits ↦ let e : suc (length rs) - n ≡ 0 = omega arith in rw e (ground arith)
  ]

  insert-IsNamed :
      (r : ContinuationRecord T) (rs : Records T)
      → (r.id == "") ≡ false
      → All IsNamed rs
      → All IsNamed (insert r.id r rs)
  unfolding insert
  insert-IsNamed r [] h v = (h, tt)
  insert-IsNamed r ((id, q) ∷ rs) h v =
      if_elim (All IsNamed) (id == r.id) ((id, r) ∷ rs) ((id, q) ∷ insert r.id r rs) (λ _. v)
        (λ _. (v.0, insert-IsNamed r rs h v.1))

  erase-IsNamed : (id : String) (rs : Records T) → All IsNamed rs → All IsNamed (erase id rs)
  unfolding erase
  erase-IsNamed id [] v = tt
  erase-IsNamed id ((k, q) ∷ rs) v =
      if_elim (All IsNamed) (k == id) (erase id rs) ((k, q) ∷ erase id rs)
        (λ _. erase-IsNamed id rs v.1) (λ _. (v.0, erase-IsNamed id rs v.1))

  insert_last :
      (r : ContinuationRecord T) (rs : Records T)
      → insert r.id r (erase r.id rs) ≡ erase r.id rs ++ (r.id, r) ∷ []
  unfolding insert erase
  insert_last r [] = refl
  insert_last r ((k, q) ∷ rs) = ground (arith, insert_last r rs)

  -- Where no id is empty, a write keeps the store within its size: of the other records in their
  -- order, followed by the new one, it keeps the last `n`.
  pub put_continuation_lem :
      (n : ℕ) (rs : Records T) (r : ContinuationRecord T)
      → (r.id == "") ≡ false
      → All IsNamed rs
      → let all = erase r.id rs ++ (r.id, r) ∷ [] in
        (put_continuation n rs r ≡ drop (length all - n) all)
        × (length (put_continuation n rs r) ≤ n)
  unfolding put_continuation
  put_continuation_lem n rs r h v =
      let named = insert-IsNamed r (erase r.id rs) h (erase-IsNamed r.id rs v) in
      (
        evict-suffix n (insert r.id r (erase r.id rs)) named
            ∙ ap (λ l. drop (length l - n) l) (insert_last r rs),
        evict-le n (insert r.id r (erase r.id rs)) named,
      )

  get_found_lem :
      (rs : Records T) (id : String) (tenant_id : Option String) (now : ℕ)
      (o : Option (ContinuationRecord T)) (r : ContinuationRecord T)
      → (get_found rs id tenant_id now o).0 ≡ some r
      → (o ≡ some r) × (tenant_id ≡ r.tenant_id) × (is_expired now r ≡ false)
  unfolding get_found give_out
  get_found_lem rs id tenant_id now none r h = absurd (cc)
  get_found_lem rs id tenant_id now (some q) r h =
      ground (arith, option_beq_iff tenant_id q.tenant_id)

  -- A record is only given to the tenant that it belongs to, before it expires.
  pub get_continuation_lem :
      (rs : Records T) (id : String) (tenant_id : Option String) (now : ℕ)
      (r : ContinuationRecord T)
      → (get_continuation rs id tenant_id now).0 ≡ some r
      → (lookup id rs ≡ some r) × (tenant_id ≡ r.tenant_id) × (is_expired now r ≡ false)
  unfolding get_continuation
  get_continuation_lem rs id tenant_id now r h =
      get_found_lem rs id tenant_id now (lookup id rs) r h
