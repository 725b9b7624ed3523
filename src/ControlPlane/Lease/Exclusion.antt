-- ===== src/ControlPlane/Lease/Exclusion.antt =====
-- Mutual exclusion, and the life of one lease.
use synth_agent_runtime.Prelude.{
  Option, Result, String, arith, eq_iff, err, false, if◌then◌else◌, list_eq, lookup,
  lookup-insert_self, ltb, nat_eq, none, ok, option_eq, some, string_eq, subst, sym, ℕ, ◌+◌, ◌≡◌,
}
use synth_agent_runtime.Prelude.Int.{JsNumber, positive}
use synth_agent_runtime.ControlPlane.Lease.{
  LeaseClaimResult, LeaseError, LeaseRecord, LeaseStore, acquire_lease, acquire_within, claim,
  grant, held, validate_lease, validate_ttl,
}

claim_blocked :
    (s : LeaseStore) (r o other : String) (t ttl now : ℕ) (existing : Option LeaseRecord)
    (l : LeaseRecord)
    → held existing o t now ≡ some l
    → claim s r other ttl now existing ≡ (record { acquired = false; lease = l }, s)
unfolding held claim
claim_blocked s r o other t ttl now none l h = cc
claim_blocked s r o other t ttl now (some k) l h = ground arith

-- While a lease validates, every well-formed acquisition at that time, the holder's own included,
-- is refused: it reports the lease that is held, and the store stays as it was.
pub acquire_while_held :
    (s : LeaseStore) (r o other : String) (t now ms : ℕ) (n : JsNumber) (l : LeaseRecord)
    → validate_lease s r o t now ≡ some l
    → positive n ≡ some ms
    → acquire_lease s r other n now ≡ (ok (record { acquired = false; lease = l }), s)
unfolding validate_lease acquire_lease
acquire_while_held s r o other t now ms n l h valid =
    rw (valid, validate_ttl)
      (ground (arith, claim_blocked s r o other t ms now (lookup r s.leases) l h))

abbrev pub lease_of : Result LeaseError LeaseClaimResult → Option LeaseRecord
lease_of (ok c) = if c.acquired then some c.lease else none
lease_of (err e) = none

claim_term :
    (s : LeaseStore) (r o : String) (ttl now later : ℕ) (existing : Option LeaseRecord)
    (l : LeaseRecord)
    → lease_of (ok (claim s r o ttl now existing).0) ≡ some l
    → let s' = (claim s r o ttl now existing).1 in
      held (lookup r s'.leases) o l.fencing_token later
      ≡ (if ltb later (now + ttl) then some l else none)
unfolding claim grant held
claim_term s r o ttl now later none l h =
    ground (arith, lookup-insert_self r l s.leases, eq_iff o o)
claim_term s r o ttl now later (some k) l h =
    ground (arith, lookup-insert_self r l s.leases, eq_iff o o)

validate_ttl-ok : (n : JsNumber) (ms : ℕ) → positive n ≡ some ms → validate_ttl n ≡ ok ms
unfolding validate_ttl
validate_ttl-ok n ms valid = rw (valid, validate_ttl)

-- A lease that was just acquired for `ms` milliseconds validates for its owner and token before
-- `now + ms`, and from that time on no longer.
pub acquired_term :
    (s : LeaseStore) (r o : String) (n : JsNumber) (ms now later : ℕ) (l : LeaseRecord)
    → positive n ≡ some ms
    → lease_of (acquire_lease s r o n now).0 ≡ some l
    → validate_lease (acquire_lease s r o n now).1 r o l.fencing_token later
      ≡ (if ltb later (now + ms) then some l else none)
unfolding validate_lease acquire_lease acquire_within
acquired_term s r o n ms now later l valid h =
    subst Term (sym (validate_ttl-ok n ms valid))
      (claim_term s r o ms now later (lookup r s.leases) l) h
  where
    Term : Result LeaseError ℕ → Type 0
    Term m =
        lease_of (acquire_within s r o now m).0 ≡ some l
        → held (lookup r (acquire_within s r o now m).1.leases) o l.fencing_token later
          ≡ (if ltb later (now + ms) then some l else none)
