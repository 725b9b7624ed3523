-- ===== src/Execution/Broker.antt =====
-- src/execution/broker.ts: `ExecutionBroker`. `withSpan` only reports, and is left out. The clock
-- is the pair of arguments `started_at` and `ended_at`. The store is that of
-- src/durability/local-runtime-state.ts; `has_claim` is false for a store with no `claimEffect`.
-- Other clients write to the store while the broker awaits: `before_claim` are their calls between
-- `getEffect` and `claimEffect`, and `meanwhile` those between the claim and the last write.
pub mod Selection
pub mod Once
mod Tests
use Prim.Native.String.{◌++◌ as concat}
use synth_agent_runtime.Prelude.{
  Bool, List, Option, Result, String, [], eqb, err, false, if◌then◌else◌, includes, keep, leb,
  list_eq, ltb, max, nat_eq, none, not, ok, option_eq, or_else, some, string_eq, true, ℕ, ◌&&◌,
  ◌==◌, ◌||◌, ◌∷◌,
}
use synth_agent_runtime.Durability.State.{
  ClaimResult, DurableEffectRecord, committed, failed, started,
}
use synth_agent_runtime.Durability.LocalStore.{
  LocalRuntimeStateStore, claim_effect, get_effect, put_effect,
}
use synth_agent_runtime.Durability.LocalStore.Monotone.{Call, run}
use synth_agent_runtime.Execution.Effects.{
  Effect, EffectContext, EffectResult, ExecutionPolicy, Executor, failure, kind_of, process_exec,
}

abbrev pub Store : Type 0
Store = LocalRuntimeStateStore EffectResult

abbrev pub Receipt : Type 0
Receipt = DurableEffectRecord EffectResult

-- What a call of `execute` comes to: a value, `undefined` included, or a thrown message.
abbrev pub Outcome : Type 0
Outcome = Result String (Option EffectResult)

abbrev pub returned : EffectResult → Outcome
returned r = ok (some r)

abbrev pub uncertain : String → Outcome
uncertain id = returned (failure (concat "EFFECT_OUTCOME_UNCERTAIN:" id))

-- The answer that a receipt gives: it is replayed if it is resolved.
unfoldable pub replay : String → Receipt → Outcome
replay id r = elim r.status [
  | committed ↦ ok r.result
  | failed ↦ elim r.result [
    | some result ↦ returned result
    | none ↦ returned (failure (or_else r.error (concat "EFFECT_PREVIOUSLY_FAILED:" id)))
  ]
  | started ↦ uncertain id
]

-- a string that is neither absent nor empty
abbrev pub truthy : Option String → Option String
truthy none = none
truthy (some s) = if s == "" then none else some s

abbrev pub policy_of {ℓ} : {A : Type ℓ} → EffectContext → A → (ExecutionPolicy → A) → A
policy_of context d f = elim context.execution_policy [ none ↦ d | some p ↦ f p ]

unfoldable pub floor_of : EffectContext → ℕ → ℕ
floor_of context min_fidelity =
    max min_fidelity (policy_of context 0 (λ p. or_else p.min_fidelity 0))

unfoldable pub or_option {ℓ} : {A : Type ℓ} → Option A → Option A → Option A
or_option none b = b
or_option (some a) b = some a

unfoldable pub preferred_of : Effect → EffectContext → Option String
unfolding or_option
preferred_of effect context = elim effect.operation [
  | process_exec c ↦ or_option c.resource_class (policy_of context none (λ p. p.preferred_class))
  | _ ↦ policy_of context none (λ p. p.preferred_class)
]

unfoldable pub is_allowed : EffectContext → Option String → Bool
is_allowed context class = elim (policy_of context none (λ p. p.allowed_classes)) [
  | none ↦ true
  | some classes ↦ elim (truthy class) [ none ↦ true | some c ↦ includes c classes ]
]

abbrev pub allows_escalation : EffectContext → Bool
allows_escalation context = policy_of context true (λ p. or_else p.allow_escalation true)

-- the result ends the loop
unfoldable pub is_last : EffectContext → EffectResult → Bool
is_last context r =
    r.is_ok || not (r.error == some "ESCALATION_REQUIRED") || not (allows_escalation context)

module _ {W : Type 0} where
  unfoldable pub is_candidate : EffectContext → ℕ → Executor W → Bool
  unfolding floor_of is_allowed
  is_candidate context min_fidelity e =
      leb (floor_of context min_fidelity) e.fidelity && is_allowed context e.resource_class_id

  -- `preferred && a.resourceClassId === preferred ? 0 : 1`
  unfoldable pub preference : Option String → Executor W → ℕ
  preference preferred e = elim (truthy preferred) [
    | none ↦ 1
    | some p ↦ elim e.resource_class_id [ none ↦ 1 | some c ↦ if c == p then 0 else 1 ]
  ]

  -- the comparison of the sort gives `a` before `b`, or leaves them in place
  unfoldable pub sorts_before : Option String → Executor W → Executor W → Bool
  unfolding preference
  sorts_before preferred a b =
      if eqb (preference preferred a) (preference preferred b)
      then leb a.fidelity b.fidelity
      else ltb (preference preferred a) (preference preferred b)

  -- `sort` is stable: a new element goes before the first that does not come before it.
  unfoldable pub insert_sorted : Option String → Executor W → List (Executor W) → List (Executor W)
  insert_sorted preferred e [] = e ∷ []
  insert_sorted preferred e (x ∷ xs) =
      if sorts_before preferred e x then e ∷ x ∷ xs else x ∷ insert_sorted preferred e xs

  unfoldable pub sort_by : Option String → List (Executor W) → List (Executor W)
  sort_by preferred [] = []
  sort_by preferred (x ∷ xs) = insert_sorted preferred x (sort_by preferred xs)

  pub candidates : List (Executor W) → Effect → EffectContext → ℕ → List (Executor W)
  candidates executors effect context min_fidelity =
      sort_by (preferred_of effect context) (keep (is_candidate context min_fidelity) executors)

  abbrev pub decorated : Executor W → EffectResult → EffectResult
  decorated e r = record r { executor = some e.id; fidelity = some e.fidelity }

  unfoldable pub after_execute :
      EffectContext
      → Executor W
      → (EffectResult → W → Result String EffectResult × W)
      → Result String EffectResult × W
      → Result String EffectResult × W
  unfolding is_last
  after_execute context e rest (err m, w) = (err m, w)
  after_execute context e rest (ok r, w) =
      if is_last context r then (ok (decorated e r), w) else rest (decorated e r) w

  unfoldable pub offer :
      Effect
      → EffectContext
      → Executor W
      → (EffectResult → W → Result String EffectResult × W)
      → EffectResult
      → Result String Bool × W
      → Result String EffectResult × W
  unfolding after_execute
  offer effect context e rest final (err m, w) = (err m, w)
  offer effect context e rest final (ok false, w) = rest final w
  offer effect context e rest final (ok true, w) =
      after_execute context e rest (e.execute effect context w)

  -- `for (const executor of candidates)`
  pub attempt :
      Effect → EffectContext → List (Executor W) → EffectResult → W → Result String EffectResult × W
  unfolding offer
  attempt effect context [] final w = (ok final, w)
  attempt effect context (e ∷ es) final w =
      offer effect context e (attempt effect context es) final (e.can_execute effect context w)

abbrev pub no_executor : EffectResult
no_executor = failure "No executor can satisfy effect"

abbrev pub started_receipt : Effect → ℕ → Receipt
started_receipt effect started_at = record {
  id = effect.id;
  status = started;
  kind = kind_of effect.operation;
  started_at = started_at;
  updated_at = started_at;
  result = none;
  error = none;
}

-- the receipt that is written when the executors are done, or one of them threw
unfoldable pub final_receipt : Effect → ℕ → ℕ → Result String EffectResult → Receipt
final_receipt effect started_at ended_at (ok final) = record (started_receipt effect started_at) {
  status = if final.is_ok then committed else failed;
  updated_at = ended_at;
  result = some final;
  error = if final.is_ok then none else final.error;
}
final_receipt effect started_at ended_at (err message) =
    record (started_receipt effect started_at) {
      updated_at = ended_at;
      error = some (concat "uncertain:" message);
    }

abbrev pub outcome_of : Result String EffectResult → Outcome
outcome_of (ok final) = returned final
outcome_of (err message) = err message

pub record Request : Type 0 where
  pub effect : Effect
  pub context : EffectContext
  pub min_fidelity : ℕ
  pub started_at : ℕ
  pub ended_at : ℕ
  pub before_claim : List (Call EffectResult)
  pub meanwhile : List (Call EffectResult)

module _ {W : Type 0} (executors : List (Executor W)) (has_claim : Bool) (req : Request) where
  abbrev pub attempted : W → Result String EffectResult × W
  attempted w =
      attempt req.effect req.context (candidates executors req.effect req.context req.min_fidelity)
        no_executor w

  unfoldable pub perform : Store → W → Outcome × Store × W
  unfolding final_receipt
  perform s w =
      let (result, w') = attempted w in
      (
        outcome_of result,
        put_effect (run s req.meanwhile)
            (final_receipt req.effect req.started_at req.ended_at result),
        w',
      )

  unfoldable pub perform_claimed : ClaimResult Receipt × Store → W → Outcome × Store × W
  unfolding perform replay
  perform_claimed (claim, s) w =
      if claim.claimed then perform s w else (replay req.effect.id claim.entry, s, w)

  unfoldable pub claim_and_perform : Store → W → Outcome × Store × W
  unfolding perform_claimed
  claim_and_perform s w =
      let receipt = started_receipt req.effect req.started_at in
      if has_claim
      then perform_claimed (claim_effect s receipt) w
      else perform (put_effect s receipt) w

  -- `execute` of a broker with a store
  pub execute : Store → W → Outcome × Store × W
  unfolding claim_and_perform
  execute s w = elim (get_effect s req.effect.id) [
    | some receipt ↦ (replay req.effect.id receipt, s, w)
    | none ↦ claim_and_perform (run s req.before_claim) w
  ]

  -- `execute` of a broker with no store
  pub execute_unrecorded : W → Outcome × W
  execute_unrecorded w = let (result, w') = attempted w in (outcome_of result, w')
