-- ===== src/Execution/Broker/Once.antt =====
-- Each effect is run at most once, and its answer is replayed.
use synth_agent_runtime.Durability.State.{ClaimResult, can_replace_effect}
use synth_agent_runtime.Prelude.{
  Bool, List, Option-cases, Result, String, [], arith, err, if_elim, inl, inr, insert, list_eq,
  lookup-insert_self, nat_eq, none, ok, option_eq, refl, some, string_eq, subst, true, ℕ, ◌<◌, ◌∙◌,
  ◌≡◌,
}
use synth_agent_runtime.Durability.LocalStore.{claim_effect, get_effect, put_effect}
use synth_agent_runtime.Durability.LocalStore.Monotone.{Call, rank, rank-claim, rank-run, run}
use synth_agent_runtime.Execution.Effects.{Effect, EffectResult, Executor}
use synth_agent_runtime.Execution.Broker.{
  Outcome, Receipt, Request, Store, attempted, claim_and_perform, execute, final_receipt,
  outcome_of, perform, perform_claimed, replay, started_receipt, uncertain,
}

-- What a repetition of a call answers: its value again, or that its outcome is uncertain.
abbrev pub repeated : String → Outcome → Outcome
repeated id (ok r) = ok r
repeated id (err m) = uncertain id

module _ {W : Type 0} (executors : List (Executor W)) (has_claim : Bool) where
  execute_seen :
      (req : Request) (s : Store) (w : W) (r : Receipt)
      → get_effect s req.effect.id ≡ some r
      → execute executors has_claim req s w ≡ (replay req.effect.id r, s, w)
  unfolding execute
  execute_seen req s w r h = rw (h, execute)

  execute_new :
      (req : Request) (s : Store) (w : W)
      → get_effect s req.effect.id ≡ none
      → execute executors has_claim req s w
        ≡ claim_and_perform executors has_claim req (run s req.before_claim) w
  unfolding execute
  execute_new req s w h = rw (h, execute)

  execute_ranked :
      (req : Request) (s : Store) (w : W)
      → 0 < rank (get_effect s req.effect.id)
      → (execute executors has_claim req s w).2 ≡ w
  execute_ranked req s w h = elim (Option-cases (get_effect s req.effect.id)) [
    | inl e ↦ absurd (ground (arith))
    | inr (r, e) ↦ rw (execute_seen req s w r e)
  ]

  rank-put : (s : Store) (e : Receipt) → 0 < rank (get_effect (put_effect s e) e.id)
  unfolding put_effect get_effect
  rank-put s e = ground (arith, lookup-insert_self e.id e s.effects)

  final-id :
      (effect : Effect) (t u : ℕ) (r : Result String EffectResult)
      → (final_receipt effect t u r).id ≡ effect.id
  unfolding final_receipt
  final-id effect t u (ok r) = refl
  final-id effect t u (err m) = refl

  perform-rank :
      (req : Request) (s : Store) (w : W)
      → 0 < rank (get_effect (perform executors has_claim req s w).1 req.effect.id)
  unfolding perform
  perform-rank req s w =
      let r = (attempted executors has_claim req w).0 in
      let final = final_receipt req.effect req.started_at req.ended_at r in
      subst (λ i. 0 < rank (get_effect (put_effect (run s req.meanwhile) final) i))
        (final-id req.effect req.started_at req.ended_at r) (rank-put (run s req.meanwhile) final)

  perform_claimed-rank :
      (req : Request) (c : ClaimResult Receipt) (s : Store) (w : W)
      → 0 < rank (get_effect s req.effect.id)
      → 0 < rank (get_effect (perform_claimed executors has_claim req (c, s) w).1 req.effect.id)
  unfolding perform_claimed
  perform_claimed-rank req c s w h = ground (arith, perform-rank req s w)

  claim_and_perform-rank :
      (req : Request) (s : Store) (w : W)
      → 0 < rank (get_effect (claim_and_perform executors has_claim req s w).1 req.effect.id)
  unfolding claim_and_perform
  claim_and_perform-rank req s w =
      let receipt = started_receipt req.effect req.started_at in
      if_elim (λ (o : Outcome × Store × W). 0 < rank (get_effect o.1 req.effect.id)) has_claim
        (perform_claimed executors has_claim req (claim_effect s receipt) w)
        (perform executors has_claim req (put_effect s receipt) w)
        (λ _.
          perform_claimed-rank req (claim_effect s receipt).0 (claim_effect s receipt).1 w
            (rank-claim s receipt))
        (λ _. perform-rank req (put_effect s receipt) w)

  execute-rank :
      (req : Request) (s : Store) (w : W)
      → 0 < rank (get_effect (execute executors has_claim req s w).1 req.effect.id)
  execute-rank req s w = elim (Option-cases (get_effect s req.effect.id)) [
    | inl e ↦ rw (execute_new req s w e) (claim_and_perform-rank req (run s req.before_claim) w)
    | inr (r, e) ↦ rw (execute_seen req s w r e) (ground arith)
  ]

  -- At most once: when an effect has been given to a broker with a store, then whatever other
  -- clients put or claim during the call and after it, and however the call ended, a later call for
  -- the same effect id runs no executor, so the world stays as it is.
  pub execute_once :
      (req later : Request) (s : Store) (w : W) (cs : List (Call EffectResult))
      → later.effect.id ≡ req.effect.id
      → let (outcome, s', w') = execute executors has_claim req s w in
        (execute executors has_claim later (run s' cs) w').2 ≡ w'
  execute_once req later s w cs same =
      let s' = (execute executors has_claim req s w).1 in
      execute_ranked later (run s' cs) (execute executors has_claim req s w).2
        (rw same (omega (arith, execute-rank req s w, rank-run s' cs req.effect.id)))

  -- A broker that loses the race for an effect runs no executor: when the store claims atomically
  -- and another client has put or claimed the effect between `getEffect` and `claimEffect`, the
  -- world and the store stay as they are, and the answer is the one that the receipt gives.
  execute_lost_claim :
      (req : Request) (s : Store) (w : W) (r : Receipt)
      → has_claim ≡ true
      → get_effect s req.effect.id ≡ none
      → get_effect (run s req.before_claim) req.effect.id ≡ some r
      → execute executors has_claim req s w ≡ (replay req.effect.id r, run s req.before_claim, w)
  unfolding claim_and_perform perform_claimed claim_effect get_effect
  execute_lost_claim req s w r atomic free taken =
      rw (execute_new req s w free, atomic, claim_and_perform, claim_effect, taken)

-- The store has a receipt of the effect that repeats the outcome.
abbrev pub Settled : String → Outcome → Store → Type 0
Settled id o s = (r : Receipt) × (get_effect s id ≡ some r) × (replay id r ≡ repeated id o)

replay-final :
    (effect : Effect) (t u : ℕ) (r : Result String EffectResult)
    → replay effect.id (final_receipt effect t u r) ≡ repeated effect.id (outcome_of r)
unfolding final_receipt replay
replay-final effect t u (ok r) = ground arith
replay-final effect t u (err m) = refl

get-put_final :
    (s : Store) (effect : Effect) (t u : ℕ) (r : Result String EffectResult)
    → get_effect s effect.id ≡ some (started_receipt effect t)
    → get_effect (put_effect s (final_receipt effect t u r)) effect.id
      ≡ some (final_receipt effect t u r)
unfolding get_effect put_effect final_receipt
get-put_final s effect t u (ok r) h =
    ground (arith, lookup-insert_self effect.id (final_receipt effect t u (ok r)) s.effects)
get-put_final s effect t u (err m) h =
    ground (arith, lookup-insert_self effect.id (final_receipt effect t u (err m)) s.effects)

module _ {W : Type 0} (executors : List (Executor W)) (has_claim : Bool) where
  perform-Settled :
      (req : Request) (s : Store) (w : W)
      → req.meanwhile ≡ []
      → get_effect s req.effect.id ≡ some (started_receipt req.effect req.started_at)
      → let (o, s', w') = perform executors has_claim req s w in Settled req.effect.id o s'
  unfolding perform
  perform-Settled req s w quiet h =
      let r = (attempted executors has_claim req w).0 in
      (
        final_receipt req.effect req.started_at req.ended_at r,
        rw (quiet, perform) (get-put_final s req.effect req.started_at req.ended_at r h),
        replay-final req.effect req.started_at req.ended_at r,
      )

  abbrev marked : Request → Store → Store
  marked req s = record s {
    effects = insert req.effect.id (started_receipt req.effect req.started_at) s.effects;
  }

  claim_and_perform_alone :
      (req : Request) (s : Store) (w : W)
      → get_effect s req.effect.id ≡ none
      → claim_and_perform executors has_claim req s w
        ≡ perform executors has_claim req (marked req s) w
  unfolding claim_and_perform perform_claimed claim_effect put_effect get_effect can_replace_effect
  claim_and_perform_alone req s w h =
      if_elim (λ (o : Outcome × Store × W). o ≡ perform executors has_claim req (marked req s) w)
        has_claim _ _ (λ _. rw (h, claim_effect)) (λ _. rw (h, put_effect))

  claim_and_perform-Settled :
      (req : Request) (s : Store) (w : W)
      → req.meanwhile ≡ []
      → get_effect s req.effect.id ≡ none
      → let (o, s', w') = claim_and_perform executors has_claim req s w in
        Settled req.effect.id o s'
  unfolding get_effect
  claim_and_perform-Settled req s w quiet h = rw (claim_and_perform_alone req s w h) (
      perform-Settled req (marked req s) w quiet
        (lookup-insert_self req.effect.id (started_receipt req.effect req.started_at) s.effects))

  execute-Settled :
      (req : Request) (s : Store) (w : W)
      → req.before_claim ≡ []
      → req.meanwhile ≡ []
      → let (o, s', w') = execute executors has_claim req s w in Settled req.effect.id o s'
  unfolding replay claim_and_perform
  execute-Settled req s w calm quiet = elim (Option-cases (get_effect s req.effect.id)) [
    | inl e ↦
        rw (execute_new executors has_claim req s w e, calm)
          (claim_and_perform-Settled req s w quiet e)
    | inr (r, e) ↦ rw (execute_seen executors has_claim req s w r e) (r, e, ground arith)
  ]

  -- Idempotence: when nobody else writes to the store during a call, a later call for the same
  -- effect id gives the value that the first one gave, or says that the outcome is uncertain if the
  -- first one threw, and changes neither the store nor the world.
  pub execute_twice :
      (req later : Request) (s : Store) (w : W)
      → req.before_claim ≡ []
      → req.meanwhile ≡ []
      → later.effect.id ≡ req.effect.id
      → let (o, s', w') = execute executors has_claim req s w in
        execute executors has_claim later s' w' ≡ (repeated req.effect.id o, s', w')
  execute_twice req later s w calm quiet same =
      let (o, s', w') = execute executors has_claim req s w in
      let (r, held, answers) = execute-Settled req s w calm quiet in
      execute_seen executors has_claim later s' w' r (rw same held) ∙ rw (same, answers)
