-- ===== src/ControlPlane/Lease.antt =====
-- src/control-plane/lease.ts: `InMemoryLeaseStore`. The clock is the argument `now` of each method.
pub mod Fencing
pub mod Exclusion
mod Tests
use synth_agent_runtime.Prelude.{
  Bool, List, Map, Option, Result, String, [], eqb, erase, err, false, if◌then◌else◌, insert,
  list_eq, lookup, ltb, nat_eq, none, ok, option_eq, or_else, some, string_eq, true, ℕ, ◌&&◌, ◌+◌,
  ◌==◌, ◌∷◌,
}
use synth_agent_runtime.Prelude.Int.{JsNumber, positive}

pub record LeaseRecord : Type 0 where
  pub resource_id : String
  pub owner_id : String
  pub fencing_token : ℕ
  pub acquired_at : ℕ
  pub updated_at : ℕ
  pub expires_at : ℕ

pub record LeaseClaimResult : Type 0 where
  pub acquired : Bool
  pub lease : LeaseRecord

pub data LeaseError : Type 0 where
  invalid_ttl : JsNumber → LeaseError

pub record LeaseStore : Type 0 where
  pub leases : Map String LeaseRecord
  pub tokens : Map String ℕ

abbrev pub empty_store : LeaseStore
empty_store = record { leases = []; tokens = [] }

-- `validateTtl`, with the milliseconds that pass it
unfoldable pub validate_ttl : JsNumber → Result LeaseError ℕ
validate_ttl ttl = elim (positive ttl) [ none ↦ err (invalid_ttl ttl) | some ms ↦ ok ms ]

abbrev pub fence_of : Option LeaseRecord → ℕ
fence_of none = 0
fence_of (some l) = l.fencing_token

-- `(this.#tokens.get(resourceId) ?? existing?.fencingToken ?? 0) + 1`
unfoldable pub next_token : LeaseStore → String → Option LeaseRecord → ℕ
next_token s resource existing = or_else (lookup resource s.tokens) (fence_of existing) + 1

unfoldable pub grant :
    LeaseStore → String → String → ℕ → ℕ → Option LeaseRecord → LeaseClaimResult × LeaseStore
grant s resource owner ttl now existing =
    let token = next_token s resource existing in
    let lease : LeaseRecord = record {
      resource_id = resource;
      owner_id = owner;
      fencing_token = token;
      acquired_at = now;
      updated_at = now;
      expires_at = now + ttl;
    } in
    (
      record { acquired = true; lease = lease },
      record { leases = insert resource lease s.leases; tokens = insert resource token s.tokens },
    )

-- `existing && existing.expiresAt > now`
unfoldable pub claim :
    LeaseStore → String → String → ℕ → ℕ → Option LeaseRecord → LeaseClaimResult × LeaseStore
claim s resource owner ttl now none = grant s resource owner ttl now none
claim s resource owner ttl now (some l) =
    if ltb now l.expires_at
    then (record { acquired = false; lease = l }, s)
    else grant s resource owner ttl now (some l)

unfoldable pub acquire_within :
    LeaseStore
    → String
    → String
    → ℕ
    → Result LeaseError ℕ
    → Result LeaseError LeaseClaimResult × LeaseStore
unfolding claim
acquire_within s resource owner now (err e) = (err e, s)
acquire_within s resource owner now (ok ms) =
    let (result, s') = claim s resource owner ms now (lookup resource s.leases) in (ok result, s')

pub acquire_lease :
    LeaseStore → String → String → JsNumber → ℕ → Result LeaseError LeaseClaimResult × LeaseStore
unfolding acquire_within validate_ttl
acquire_lease s resource owner ttl now = acquire_within s resource owner now (validate_ttl ttl)

-- the owner and the fencing token of the caller are those of the lease
unfoldable pub is_holder : LeaseRecord → String → ℕ → Bool
is_holder l owner token = (l.owner_id == owner) && eqb l.fencing_token token

unfoldable pub held : Option LeaseRecord → String → ℕ → ℕ → Option LeaseRecord
unfolding is_holder
held none owner token now = none
held (some l) owner token now =
    if is_holder l owner token && ltb now l.expires_at then some l else none

unfoldable pub renew_at :
    LeaseStore → String → ℕ → ℕ → Option LeaseRecord → Option LeaseRecord × LeaseStore
renew_at s resource ttl now none = (none, s)
renew_at s resource ttl now (some l) =
    let l' : LeaseRecord = record l { updated_at = now; expires_at = now + ttl } in
    (some l', record s { leases = insert resource l' s.leases })

unfoldable pub renew_within :
    LeaseStore
    → String
    → String
    → ℕ
    → ℕ
    → Result LeaseError ℕ
    → Result LeaseError (Option LeaseRecord) × LeaseStore
unfolding held renew_at
renew_within s resource owner token now (err e) = (err e, s)
renew_within s resource owner token now (ok ms) =
    let (result, s') =
      renew_at s resource ms now (held (lookup resource s.leases) owner token now) in
    (ok result, s')

pub renew_lease :
    LeaseStore
    → String
    → String
    → ℕ
    → JsNumber
    → ℕ
    → Result LeaseError (Option LeaseRecord) × LeaseStore
unfolding renew_within validate_ttl
renew_lease s resource owner token ttl now =
    renew_within s resource owner token now (validate_ttl ttl)

unfoldable pub release_held :
    LeaseStore → String → String → ℕ → Option LeaseRecord → Bool × LeaseStore
unfolding is_holder
release_held s resource owner token none = (false, s)
release_held s resource owner token (some l) =
    if is_holder l owner token
    then (true, record s { leases = erase resource s.leases })
    else (false, s)

pub release_lease : LeaseStore → String → String → ℕ → Bool × LeaseStore
unfolding release_held
release_lease s resource owner token =
    release_held s resource owner token (lookup resource s.leases)

pub get_lease : LeaseStore → String → Option LeaseRecord
get_lease s resource = lookup resource s.leases

pub validate_lease : LeaseStore → String → String → ℕ → ℕ → Option LeaseRecord
unfolding held
validate_lease s resource owner token now = held (lookup resource s.leases) owner token now

-- The calls that change the store.
pub data Call : Type 0 where
  acquire : String → String → JsNumber → ℕ → Call
  renew : String → String → ℕ → JsNumber → ℕ → Call
  release : String → String → ℕ → Call

pub step : LeaseStore → Call → LeaseStore
step s (acquire r o ttl now) = (acquire_lease s r o ttl now).1
step s (renew r o t ttl now) = (renew_lease s r o t ttl now).1
step s (release r o t) = (release_lease s r o t).1

pub run : LeaseStore → List Call → LeaseStore
run s [] = s
run s (c ∷ cs) = run (step s c) cs
