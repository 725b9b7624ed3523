-- ===== src/Gateway/Tenants.antt =====
-- src/inference/gateway/tenant-policy.ts: the policies that authorize a principal. A policy is a
-- record of functions on a state `S` that all policies of a gateway share; only policies whose
-- `authorize` answers at once are modelled, not one that returns a promise. The clock is the
-- argument `now`. A key `tenant@window` of the shared counter is the pair of its parts. Of the
-- authenticator the loop over the tokens is modelled, with the digest as a parameter.
pub mod RateLimit
mod Tests
use synth_agent_runtime.Prelude.{
  List, Map, Option, Result, String, [], eqb, err, if◌then◌else◌, includes, insert, keep, leb,
  length, list_eq, lookup, ltb, map, nat_eq, none, ok, option_eq, or_else, pair_eq, some, string_eq,
  ℕ, ◌*◌, ◌+◌, ◌-◌, ◌/◌, ◌==◌, ◌∷◌,
}
use synth_agent_runtime.Prelude.Int.{pos_part, ℤ}

pub record GatewayPrincipal : Type 0 where
  pub tenant_id : String
  pub subject : String
  pub allowed_models : Option (List String)
  pub requests_per_minute : Option ℤ
  pub lane : Option String

pub data Refusal : Type 0 where
  model_forbidden rate_limited : String → Refusal
  other_refusal : String → Refusal

-- the value of a promise that resolves with nothing
pub data Done : Type 0 where
  done : Done

pub record GatewayTenantPolicy (S : Type 0) : Type 0 where
  pub authorize : GatewayPrincipal → String → S → Result Refusal Done × S
  pub release : Option (GatewayPrincipal → S → S)

-- `StaticBearerAuthenticator`: its tokens by digest, and the loop that looks for the presented one,
-- in which a later token wins
abbrev pub tokens_of :
    (String → String) → Map String GatewayPrincipal → List (String × GatewayPrincipal)
tokens_of token_digest tokens = map (λ e. (token_digest e.0, e.1)) tokens

unfoldable pub match_token :
    List (String × GatewayPrincipal) → String → Option GatewayPrincipal → Option GatewayPrincipal
match_token [] presented principal = principal
match_token ((digest, p) ∷ tokens) presented principal =
    match_token tokens presented (if digest == presented then some p else principal)

-- `ModelAclPolicy`
unfoldable pub authorize_model : GatewayPrincipal → String → Result Refusal Done
authorize_model principal model = elim principal.allowed_models [
  | none ↦ ok done
  | some models ↦ if includes model models then ok done else err (model_forbidden model)
]

-- `if (!limit || limit <= 0) return`
unfoldable pub limit_of : GatewayPrincipal → Option ℕ
limit_of principal = elim principal.requests_per_minute [
  | none ↦ none
  | some limit ↦ if ltb 0 (pos_part limit) then some (pos_part limit) else none
]

-- `InMemoryTenantRateLimitPolicy`
pub record Window : Type 0 where
  pub minute : ℕ
  pub count : ℕ

abbrev pub minute_of : ℕ → ℕ
minute_of now = now / 60000

unfoldable pub current_window : Option Window → ℕ → Window
current_window none minute = record { minute = minute; count = 0 }
current_window (some window) minute =
    if eqb window.minute minute then window else record { minute = minute; count = 0 }

abbrev pub counted : Window → Window
counted window = record window { count = window.count + 1 }

-- `if (count > limit) throw`
unfoldable pub within_limit : String → ℕ → ℕ → Result Refusal Done
within_limit tenant limit count = if ltb limit count then err (rate_limited tenant) else ok done

unfoldable pub authorize_within :
    Map String Window → String → ℕ → Option ℕ → Result Refusal Done × Map String Window
unfolding current_window within_limit
authorize_within windows tenant minute none = (ok done, windows)
authorize_within windows tenant minute (some limit) =
    let window = counted (current_window (lookup tenant windows) minute) in
    (within_limit tenant limit window.count, insert tenant window windows)

unfoldable pub authorize_rate :
    Map String Window → GatewayPrincipal → ℕ → Result Refusal Done × Map String Window
unfolding limit_of authorize_within
authorize_rate windows principal now =
    authorize_within windows principal.tenant_id (minute_of now) (limit_of principal)

-- `InMemorySharedRateLimitStore`
abbrev pub Counts : Type 0
Counts = Map (String × ℕ) ℕ

unfoldable pub increment : Counts → String → ℕ → ℕ × Counts
increment counts tenant window_start_ms =
    let next = or_else (lookup (tenant, window_start_ms) counts) 0 + 1 in
    (next, insert (tenant, window_start_ms) next counts)

unfoldable pub prune : Counts → ℕ → ℕ × Counts
prune counts before_ms =
    let kept = keep (λ (c : (String × ℕ) × ℕ). leb before_ms c.0.1) counts in
    (length counts - length kept, kept)

-- `SharedTenantRateLimitPolicy`
unfoldable pub authorize_shared : Counts → GatewayPrincipal → ℕ → ℕ → Result Refusal Done × Counts
unfolding limit_of increment within_limit
authorize_shared counts principal window_ms now = elim (limit_of principal) [
  | none ↦ (ok done, counts)
  | some limit ↦
      let window_start_ms = now / window_ms * window_ms in
      let (count, counts') = increment counts principal.tenant_id window_start_ms in
      (within_limit principal.tenant_id limit count, counts')
]

-- `CompositeTenantPolicy`
module _ {S : Type 0} where
  -- `policy.release?.(principal)`
  abbrev pub release_one : GatewayPrincipal → GatewayTenantPolicy S → S → S
  release_one principal policy s = elim policy.release [
    | none ↦ s
    | some release ↦ release principal s
  ]

  unfoldable pub release_all : GatewayPrincipal → List (GatewayTenantPolicy S) → S → S
  release_all principal [] s = s
  release_all principal (policy ∷ policies) s =
      release_all principal policies (release_one principal policy s)

  -- `authorized` holds the policies that have admitted the principal, the last one first.
  unfoldable pub authorize_each :
      GatewayPrincipal
      → String
      → List (GatewayTenantPolicy S)
      → List (GatewayTenantPolicy S)
      → S
      → Result Refusal Done × S
  unfolding release_all
  authorize_each principal model authorized [] s = (ok done, s)
  authorize_each principal model authorized (policy ∷ policies) s =
      let (answer, s') = policy.authorize principal model s in
      elim answer [
        | ok d ↦ authorize_each principal model (policy ∷ authorized) policies s'
        | err e ↦ (err e, release_all principal authorized s')
      ]

  unfoldable pub composite : List (GatewayTenantPolicy S) → GatewayTenantPolicy S
  unfolding authorize_each release_all
  composite policies = record {
    authorize = λ principal model s. authorize_each principal model [] policies s;
    release = some (λ principal s. release_all principal policies s);
  }
