-- ===== src/Temporal/Failures/Backoff.antt =====
-- The bounds of a park.
use native.Mathlib.Nat.{pow-suc}
use synth_agent_runtime.Prelude.{
  Option, Option-cases, arith, inl, inr, list_eq, max, min, nat_eq, none, option_eq, some,
  string_eq, suc, zero, ℕ, ◌*◌, ◌-◌, ◌<◌, ◌^◌, ◌≡◌, ◌≤◌,
}
use synth_agent_runtime.Prelude.Int.{positive, positive_pos}
use synth_agent_runtime.Temporal.Failures.{ParkBackoff, cap_of, initial_of, next_park_backoff_ms}

initial_of_pos : (o : Option ParkBackoff) → 0 < initial_of o
unfolding initial_of
initial_of_pos none = omega arith
initial_of_pos (some b) = elim (Option-cases (positive b.initial_ms)) [
  | inl e ↦ rw (e, initial_of) (omega arith)
  | inr (n, e) ↦ rw (e, initial_of) (positive_pos b.initial_ms n e)
]

pow_pos : (n : ℕ) → 1 ≤ 2 ^ n
pow_pos zero = omega arith
pow_pos (suc n) = omega (arith, pow_pos n, pow-suc 2 n)

le-mul : (i p : ℕ) → 1 ≤ p → i ≤ i * p
le-mul i p h = grind arith

doubled : (i p q m : ℕ) → q ≡ 2 * p → min (i * q) m ≡ min (2 * min (i * p) m) m
doubled i p q m e = rw e (omega arith)

-- Whatever the override, a park is at least the initial wait, which is positive, and at most the
-- larger of the initial wait and the cap; one more attempt doubles it, up to that bound.
pub next_park_backoff_bounds :
    (attempt : ℕ) (override : Option ParkBackoff)
    → let wait = next_park_backoff_ms attempt override in
      (0 < initial_of override)
      × (initial_of override ≤ wait)
      × (wait ≤ max (initial_of override) (cap_of override))
      × (next_park_backoff_ms (suc (suc attempt)) override
          ≡ min
              (2 * next_park_backoff_ms (suc attempt) override)
              (max (initial_of override) (cap_of override)))
unfolding next_park_backoff_ms
next_park_backoff_bounds attempt override = (
  initial_of_pos override,
  omega (arith, le-mul (initial_of override) (2 ^ (attempt - 1)) (pow_pos (attempt - 1))),
  omega arith,
  doubled (initial_of override) (2 ^ (suc attempt - 1)) (2 ^ (suc (suc attempt) - 1))
      (max (initial_of override) (cap_of override)) twice,
)
  where
    one : (n : ℕ) → suc n - 1 ≡ n
    one n = omega arith

    twice : 2 ^ (suc (suc attempt) - 1) ≡ 2 * 2 ^ (suc attempt - 1)
    twice = rw (one (suc attempt), one attempt) (omega (arith, pow-suc 2 attempt))
