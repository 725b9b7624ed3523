-- ===== src/ControlPlane/Lease/Fencing.antt =====
-- Fencing: a generation that has been replaced never passes a check again.
use synth_agent_runtime.Prelude.{
  Bool, List, Option, Result, String, [], arith, eq_iff, err, false, list_eq, lookup, lookup-erase,
  lookup-insert, lookup-insert_self, nat_eq, none, ok, option_eq, or_else, refl, some, string_eq,
  true, ℕ, ◌+◌, ◌<◌, ◌∷◌, ◌≡◌, ◌≢◌, ◌≤◌,
}
use synth_agent_runtime.Prelude.Int.{JsNumber}
use synth_agent_runtime.ControlPlane.Lease.{
  Call, LeaseClaimResult, LeaseError, LeaseRecord, LeaseStore, acquire, acquire_lease,
  acquire_within, claim, empty_store, grant, held, next_token, release, release_held, release_lease,
  renew, renew_at, renew_lease, renew_within, run, step, validate_lease, validate_ttl,
}

-- The last fencing token that a resource was given.
abbrev pub issued : LeaseStore → String → ℕ
issued s r = or_else (lookup r s.tokens) 0

-- A lease carries its resource's name and a token that was issued for it.
pub record IsWellFormed (s : LeaseStore) : Type 0 where
  pub named : (r : String) (l : LeaseRecord) → lookup r s.leases ≡ some l → l.resource_id ≡ r
  pub tracked :
      (r : String) (l : LeaseRecord) → lookup r s.leases ≡ some l → l.fencing_token ≤ issued s r

abbrev Names : LeaseStore → Type 0
Names s = (r : String) (l : LeaseRecord) → lookup r s.leases ≡ some l → l.resource_id ≡ r

grant-IsWellFormed :
    (s : LeaseStore) (r o : String) (ttl now : ℕ) (existing : Option LeaseRecord)
    → existing ≡ lookup r s.leases
    → IsWellFormed s
    → IsWellFormed (grant s r o ttl now existing).1
unfolding grant next_token
grant-IsWellFormed s r o ttl now existing e v = record {
  named = λ q l h. ground (arith, lookup-insert r q (new) s.leases, eq_iff r q, v.named q l);
  tracked = λ q l h. ground (
    arith,
    lookup-insert r q (new) s.leases,
    lookup-insert r q (next_token s r existing) s.tokens,
    eq_iff r q,
    v.tracked q l,
  );
}
  where
    new : LeaseRecord
    new = (grant s r o ttl now existing).0.lease

claim-IsWellFormed :
    (s : LeaseStore) (r o : String) (ttl now : ℕ) (existing : Option LeaseRecord)
    → existing ≡ lookup r s.leases
    → IsWellFormed s
    → IsWellFormed (claim s r o ttl now existing).1
unfolding claim
claim-IsWellFormed s r o ttl now none e v = grant-IsWellFormed s r o ttl now none e v
claim-IsWellFormed s r o ttl now (some l) e v =
    ground (arith, grant-IsWellFormed s r o ttl now (some l) e v)

renew_at-IsWellFormed :
    (s : LeaseStore) (r o : String) (t ttl now when : ℕ) (existing : Option LeaseRecord)
    → existing ≡ lookup r s.leases
    → IsWellFormed s
    → IsWellFormed (renew_at s r ttl when (held existing o t now)).1
unfolding renew_at held
renew_at-IsWellFormed s r o t ttl now when none e v = v
renew_at-IsWellFormed s r o t ttl now when (some l) e v = record {
  named =
      λ q k h. ground (arith, lookup-insert r q new s.leases, eq_iff r q, v.named q k, v.named r l);
  tracked = λ q k h.
      ground (arith, lookup-insert r q new s.leases, eq_iff r q, v.tracked q k, v.tracked r l);
}
  where
    new : LeaseRecord
    new = record l { updated_at = when; expires_at = when + ttl }

release_held-IsWellFormed :
    (s : LeaseStore) (r o : String) (t : ℕ) (existing : Option LeaseRecord)
    → IsWellFormed s
    → IsWellFormed (release_held s r o t existing).1
unfolding release_held
release_held-IsWellFormed s r o t none v = v
release_held-IsWellFormed s r o t (some l) v = record {
  named = λ q k h. ground (arith, lookup-erase r q s.leases, v.named q k);
  tracked = λ q k h. ground (arith, lookup-erase r q s.leases, v.tracked q k);
}

within-IsWellFormed :
    (s : LeaseStore) (r o : String) (t now : ℕ) (m : Result LeaseError ℕ)
    → IsWellFormed s
    → IsWellFormed (acquire_within s r o now m).1 × IsWellFormed (renew_within s r o t now m).1
unfolding acquire_within renew_within
within-IsWellFormed s r o t now (err e) v = (v, v)
within-IsWellFormed s r o t now (ok ms) v = (
  claim-IsWellFormed s r o ms now (lookup r s.leases) refl v,
  renew_at-IsWellFormed s r o t ms now now (lookup r s.leases) refl v,
)

pub step-IsWellFormed : (s : LeaseStore) (c : Call) → IsWellFormed s → IsWellFormed (step s c)
unfolding step acquire_lease renew_lease release_lease
step-IsWellFormed s (acquire r o ttl now) v =
    (within-IsWellFormed s r o 0 now (validate_ttl ttl) v).0
step-IsWellFormed s (renew r o t ttl now) v =
    (within-IsWellFormed s r o t now (validate_ttl ttl) v).1
step-IsWellFormed s (release r o t) v = release_held-IsWellFormed s r o t (lookup r s.leases) v

-- Generation `t` of the resource is past: a later token was issued, and no lease carries `t`.
pub record IsPast (r : String) (t : ℕ) (s : LeaseStore) : Type 0 where
  pub later : t < issued s r
  pub gone : (l : LeaseRecord) → lookup r s.leases ≡ some l → t < l.fencing_token

grant-IsPast :
    (s : LeaseStore) (r q o : String) (t ttl now : ℕ) (existing : Option LeaseRecord)
    → IsPast r t s
    → IsPast r t (grant s q o ttl now existing).1
unfolding grant next_token
grant-IsPast s r q o t ttl now existing v = record {
  later = ground (arith, lookup-insert q r (next_token s q existing) s.tokens, eq_iff q r, v.later);
  gone = λ l h. ground (arith, lookup-insert q r new s.leases, eq_iff q r, v.gone l, v.later);
}
  where
    new : LeaseRecord
    new = (grant s q o ttl now existing).0.lease

claim-IsPast :
    (s : LeaseStore) (r q o : String) (t ttl now : ℕ) (existing : Option LeaseRecord)
    → IsPast r t s
    → IsPast r t (claim s q o ttl now existing).1
unfolding claim
claim-IsPast s r q o t ttl now none v = grant-IsPast s r q o t ttl now none v
claim-IsPast s r q o t ttl now (some l) v =
    ground (arith, grant-IsPast s r q o t ttl now (some l) v)

renew_at-IsPast :
    (s : LeaseStore) (r q o : String) (t u ttl now when : ℕ) (existing : Option LeaseRecord)
    → existing ≡ lookup q s.leases
    → IsPast r t s
    → IsPast r t (renew_at s q ttl when (held existing o u now)).1
unfolding renew_at held
renew_at-IsPast s r q o t u ttl now when none e v = v
renew_at-IsPast s r q o t u ttl now when (some l) e v = record {
  later = ground (arith, v.later);
  gone = λ k h. ground (arith, lookup-insert q r new s.leases, eq_iff q r, v.gone k, v.gone l);
}
  where
    new : LeaseRecord
    new = record l { updated_at = when; expires_at = when + ttl }

release_held-IsPast :
    (s : LeaseStore) (r q o : String) (t u : ℕ) (existing : Option LeaseRecord)
    → IsPast r t s
    → IsPast r t (release_held s q o u existing).1
unfolding release_held
release_held-IsPast s r q o t u none v = v
release_held-IsPast s r q o t u (some l) v = record {
  later = ground (arith, v.later);
  gone = λ k h. ground (arith, lookup-erase q r s.leases, v.gone k);
}

within-IsPast :
    (s : LeaseStore) (r q o : String) (t u now : ℕ) (m : Result LeaseError ℕ)
    → IsPast r t s
    → IsPast r t (acquire_within s q o now m).1 × IsPast r t (renew_within s q o u now m).1
unfolding acquire_within renew_within
within-IsPast s r q o t u now (err e) v = (v, v)
within-IsPast s r q o t u now (ok ms) v = (
  claim-IsPast s r q o t ms now (lookup q s.leases) v,
  renew_at-IsPast s r q o t u ms now now (lookup q s.leases) refl v,
)

step-IsPast :
    (s : LeaseStore) (r : String) (t : ℕ) (c : Call) → IsPast r t s → IsPast r t (step s c)
unfolding step acquire_lease renew_lease release_lease
step-IsPast s r t (acquire q o ttl now) v = (within-IsPast s r q o t 0 now (validate_ttl ttl) v).0
step-IsPast s r t (renew q o u ttl now) v = (within-IsPast s r q o t u now (validate_ttl ttl) v).1
step-IsPast s r t (release q o u) v = release_held-IsPast s r q o t u (lookup q s.leases) v

run-IsPast :
    (s : LeaseStore) (r : String) (t : ℕ) (cs : List Call) → IsPast r t s → IsPast r t (run s cs)
unfolding run
run-IsPast s r t [] v = v
run-IsPast s r t (c ∷ cs) v = run-IsPast (step s c) r t cs (step-IsPast s r t c v)

run-IsWellFormed : (s : LeaseStore) (cs : List Call) → IsWellFormed s → IsWellFormed (run s cs)
unfolding run
run-IsWellFormed s [] v = v
run-IsWellFormed s (c ∷ cs) v = run-IsWellFormed (step s c) cs (step-IsWellFormed s c v)

-- After any calls on a new store, each lease stands under its own resource and carries a token
-- that was issued for that resource.
pub run-empty_store-IsWellFormed : (cs : List Call) → IsWellFormed (run empty_store cs)
run-empty_store-IsWellFormed cs = run-IsWellFormed empty_store cs (record {
  named = λ r l h. absurd (no_lease r l h);
  tracked = λ r l h. absurd (no_lease r l h);
})
  where
    no_lease : (r : String) (l : LeaseRecord) → lookup r empty_store.leases ≡ some l → ⊥
    no_lease r l h = unfold lookup in cc

abbrev pub acquired_by : Result LeaseError LeaseClaimResult → Bool
acquired_by (ok c) = c.acquired
acquired_by (err e) = false

granted-IsPast :
    (s : LeaseStore) (r o : String) (ttl now t : ℕ) (existing : Option LeaseRecord)
    → t ≤ issued s r
    → IsPast r t (grant s r o ttl now existing).1
unfolding grant next_token
granted-IsPast s r o ttl now t existing old = record {
  later = ground (arith, lookup-insert_self r (next_token s r existing) s.tokens);
  gone = λ l h. ground (arith, lookup-insert_self r new s.leases);
}
  where
    new : LeaseRecord
    new = (grant s r o ttl now existing).0.lease

claimed-IsPast :
    (s : LeaseStore) (r o : String) (ttl now t : ℕ) (existing : Option LeaseRecord)
    → t ≤ issued s r
    → (claim s r o ttl now existing).0.acquired ≡ true
    → IsPast r t (claim s r o ttl now existing).1
unfolding claim
claimed-IsPast s r o ttl now t none old h = granted-IsPast s r o ttl now t none old
claimed-IsPast s r o ttl now t (some l) old h =
    ground (arith, granted-IsPast s r o ttl now t (some l) old)

within-acquired-IsPast :
    (s : LeaseStore) (r o : String) (now t : ℕ) (m : Result LeaseError ℕ)
    → t ≤ issued s r
    → acquired_by (acquire_within s r o now m).0 ≡ true
    → IsPast r t (acquire_within s r o now m).1
unfolding acquire_within
within-acquired-IsPast s r o now t (err e) old h = cc
within-acquired-IsPast s r o now t (ok ms) old h =
    claimed-IsPast s r o ms now t (lookup r s.leases) old h

held_past :
    (existing : Option LeaseRecord) (holder : String) (t later : ℕ)
    → ((l : LeaseRecord) → existing ≡ some l → t < l.fencing_token)
    → held existing holder t later ≡ none
unfolding held
held_past none holder t later gone = refl
held_past (some l) holder t later gone = ground (arith, gone l)

renew_within_past :
    (s : LeaseStore) (r holder : String) (t later : ℕ) (m : Result LeaseError ℕ) (l : LeaseRecord)
    → IsPast r t s
    → (renew_within s r holder t later m).0 ≢ ok (some l)
unfolding renew_within renew_at
renew_within_past s r holder t later (err e) l v = λ e. cc
renew_within_past s r holder t later (ok ms) l v =
    rw (held_past (lookup r s.leases) holder t later v.gone, renew_at) (λ e. cc)

release_held_past :
    (s : LeaseStore) (r holder : String) (t : ℕ) (existing : Option LeaseRecord)
    → ((l : LeaseRecord) → existing ≡ some l → t < l.fencing_token)
    → release_held s r holder t existing ≡ (false, s)
unfolding release_held
release_held_past s r holder t none gone = refl
release_held_past s r holder t (some l) gone = ground (arith, gone l)

-- Once a resource has been acquired again, a token `t` that was issued for it earlier is dead:
-- after any further calls, and whoever presents it at whatever time, it does not validate, a
-- renewal with it yields no lease, and a release with it returns false and changes nothing.
pub stale_token :
    (s : LeaseStore) (r o : String) (ttl : JsNumber) (now t : ℕ) (cs : List Call) (holder : String)
    (ttl' : JsNumber) (later : ℕ) (l : LeaseRecord)
    → t ≤ issued s r
    → acquired_by (acquire_lease s r o ttl now).0 ≡ true
    → let s' = run (acquire_lease s r o ttl now).1 cs in
      (validate_lease s' r holder t later ≡ none)
      × ((renew_lease s' r holder t ttl' later).0 ≢ ok (some l))
      × (release_lease s' r holder t ≡ (false, s'))
unfolding acquire_lease validate_lease renew_lease release_lease
stale_token s r o ttl now t cs holder ttl' later l old h =
    let s' = run (acquire_within s r o now (validate_ttl ttl)).1 cs in
    let past : IsPast r t s' =
      run-IsPast _ r t cs (within-acquired-IsPast s r o now t (validate_ttl ttl) old h) in
    (
      held_past (lookup r s'.leases) holder t later past.gone,
      renew_within_past s' r holder t later (validate_ttl ttl') l past,
      release_held_past s' r holder t (lookup r s'.leases) past.gone,
    )
