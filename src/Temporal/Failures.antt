-- ===== src/Temporal/Failures.antt =====
-- integrations/temporal/src/correlation.ts: how a failed turn is classified, and how long an agent
-- parks. An error is the chain of its causes, outermost first, which is taken to have no cycle.
pub mod Backoff
use synth_agent_runtime.Prelude.{
  Bool, List, Option, String, [], any, eqb, if◌then◌else◌, list_eq, ltb, max, min, nat_eq, none,
  option_eq, or_else, some, string_eq, ℕ, ◌*◌, ◌-◌, ◌^◌, ◌||◌, ◌∷◌,
}
use synth_agent_runtime.Prelude.Int.{
  JsNumber, infinity, nan, neg_infinity, negsuc, pos, positive, whole, ℤ,
}

-- One error of a chain: the message of an `Error` (for another value, none), its `nonRetryable`
-- mark, its `retryAfterMs`, and the `retryAfterMs` of the objects in its `details`.
pub record Cause : Type 0 where
  pub message : Option String
  pub non_retryable : Bool
  pub retry_after_ms : Option JsNumber
  pub details : List (Option JsNumber)

-- `String(error)` of the outermost value, and the chain
pub record Failure : Type 0 where
  pub described : String
  pub top : Cause
  pub causes : List Cause

abbrev pub chain : Failure → List Cause
chain f = f.top ∷ f.causes

pub is_non_retryable_failure : Failure → Bool
is_non_retryable_failure f = any (λ (c : Cause). c.non_retryable) (chain f)

-- `typeof value === "number" && Number.isFinite(value)`
unfoldable pub finite : Option JsNumber → Option ℤ
finite none = none
finite (some (whole z)) = some z
finite (some infinity) = none
finite (some neg_infinity) = none
finite (some nan) = none

unfoldable pub first_finite : List (Option JsNumber) → Option ℤ
first_finite [] = none
first_finite (x ∷ xs) = elim (finite x) [ some z ↦ some z | none ↦ first_finite xs ]

-- the hint of one error: its own, or the first in its details
unfoldable pub hint_of : Cause → Option ℤ
unfolding first_finite finite
hint_of c = first_finite (c.retry_after_ms ∷ c.details)

unfoldable pub first_hint : List Cause → Option ℤ
unfolding hint_of
first_hint [] = none
first_hint (c ∷ cs) = elim (hint_of c) [ some z ↦ some z | none ↦ first_hint cs ]

pub retry_after_ms_from_error : Failure → Option ℤ
unfolding first_hint
retry_after_ms_from_error f = first_hint (chain f)

abbrev pub max_park_hint_ms : ℕ
max_park_hint_ms = 3_600_000

-- `value` is none, or a finite number
unfoldable pub clamp_park_hint_ms : Option ℤ → Option ℕ
clamp_park_hint_ms none = none
clamp_park_hint_ms (some (negsuc n)) = none
clamp_park_hint_ms (some (pos n)) = if eqb n 0 || ltb max_park_hint_ms n then none else some n

pub record ParkBackoff : Type 0 where
  pub initial_ms : JsNumber
  pub max_ms : JsNumber

abbrev pub default_initial_ms : ℕ
default_initial_ms = 5_000

abbrev pub default_max_ms : ℕ
default_max_ms = 300_000

unfoldable pub initial_of : Option ParkBackoff → ℕ
initial_of none = default_initial_ms
initial_of (some b) = or_else (positive b.initial_ms) default_initial_ms

unfoldable pub cap_of : Option ParkBackoff → ℕ
cap_of none = default_max_ms
cap_of (some b) = or_else (positive b.max_ms) default_max_ms

-- `initialMs * 2 ** Math.max(0, attempt - 1)`, within `Math.max(initialMs, maxMs)`
pub next_park_backoff_ms : ℕ → Option ParkBackoff → ℕ
unfolding initial_of cap_of
next_park_backoff_ms attempt override =
    min (initial_of override * 2 ^ (attempt - 1)) (max (initial_of override) (cap_of override))

unfoldable pub last_message : String → List Cause → String
last_message message [] = message
last_message message (c ∷ cs) = last_message (or_else c.message message) cs

pub root_cause_message : Failure → String
unfolding last_message
root_cause_message f = last_message (or_else f.top.message f.described) f.causes
