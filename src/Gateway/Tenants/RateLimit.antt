-- ===== src/Gateway/Tenants/RateLimit.antt =====
-- How many requests the rate limits let through.
use synth_agent_runtime.Prelude.{
  All, Bool, List, Map, Option, Result, String, [], arith, eq_iff, err, false, if◌then◌else◌,
  list_eq, lookup, lookup-insert, nat_eq, none, ok, option_eq, pair_eq, some, string_eq, true, ℕ,
  ◌&&◌, ◌+◌, ◌-◌, ◌==◌, ◌∷◌, ◌≡◌, ◌≤◌,
}
use synth_agent_runtime.Gateway.Tenants.{
  Done, GatewayPrincipal, Refusal, Window, authorize_rate, authorize_within, counted,
  current_window, limit_of, minute_of, within_limit,
}

pub record Arrival : Type 0 where
  pub principal : GatewayPrincipal
  pub now : ℕ

abbrev pub is_granted : Result Refusal Done → Bool
is_granted (ok d) = true
is_granted (err e) = false

-- 1 for a request of tenant `t` that is granted
abbrev pub grants : String → Arrival → Result Refusal Done → ℕ
grants t a answer = if (a.principal.tenant_id == t) && is_granted answer then 1 else 0

-- How many requests of tenant `t` the policy grants.
unfoldable pub granted : String → Map String Window → List Arrival → ℕ
granted t windows [] = 0
granted t windows (a ∷ cs) =
    let (answer, windows') = authorize_rate windows a.principal a.now in
    grants t a answer + granted t windows' cs

-- The request comes in minute `m`, and if it is one of tenant `t` it carries the limit `n`.
abbrev pub IsIn : ℕ → String → ℕ → Arrival → Type 0
IsIn m t n a = (minute_of a.now ≡ m) × (a.principal.tenant_id ≡ t → limit_of a.principal ≡ some n)

-- What tenant `t` has used up in minute `m`.
abbrev pub used : ℕ → Option Window → ℕ
used m window = (current_window window m).count

used-counted :
    (m : ℕ) (o : Option Window) → used m (some (counted (current_window o m))) ≡ used m o + 1
unfolding current_window
used-counted m none = ground arith
used-counted m (some w) = ground arith

within-used :
    (m : ℕ) (t : String) (n : ℕ) (windows : Map String Window) (tenant : String) (o : Option ℕ)
    → (tenant ≡ t → o ≡ some n)
    → let (answer, windows') = authorize_within windows tenant m o in
      (if (tenant == t) && is_granted answer then 1 else 0) + (n - used m (lookup t windows'))
      ≤ n - used m (lookup t windows)
unfolding authorize_within within_limit
within-used m t n windows tenant none limited = ground (arith, eq_iff tenant t)
within-used m t n windows tenant (some k) limited = ground (
  arith,
  eq_iff tenant t,
  used-counted m (lookup tenant windows),
  lookup-insert tenant t (counted (current_window (lookup tenant windows) m)) windows,
)

step-used :
    (m : ℕ) (t : String) (n : ℕ) (windows : Map String Window) (a : Arrival)
    → IsIn m t n a
    → let (answer, windows') = authorize_rate windows a.principal a.now in
      grants t a answer + (n - used m (lookup t windows')) ≤ n - used m (lookup t windows)
unfolding authorize_rate
step-used m t n windows a (here, limited) =
    rw here (within-used m t n windows a.principal.tenant_id (limit_of a.principal) limited)

granted-used :
    (m : ℕ) (t : String) (n : ℕ) (windows : Map String Window) (cs : List Arrival)
    → All (IsIn m t n) cs
    → granted t windows cs ≤ n - used m (lookup t windows)
unfolding granted
granted-used m t n windows [] h = omega arith
granted-used m t n windows (a ∷ cs) (h, hs) =
    let windows' = (authorize_rate windows a.principal a.now).1 in
    omega (arith, step-used m t n windows a h, granted-used m t n windows' cs hs)

-- Within one minute the policy grants a tenant at most cs many requests cs its limit says, whatever
-- was counted before, and however the requests of other tenants come in between.
pub granted_within_limit :
    (m : ℕ) (t : String) (n : ℕ) (windows : Map String Window) (cs : List Arrival)
    → All (IsIn m t n) cs
    → granted t windows cs ≤ n
granted_within_limit m t n windows cs h = omega (arith, granted-used m t n windows cs h)
