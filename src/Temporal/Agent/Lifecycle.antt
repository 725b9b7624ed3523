-- ===== src/Temporal/Agent/Lifecycle.antt =====
-- How `durableAgentWorkflow` ends.
use synth_agent_runtime.Temporal.Failures.{
  Failure, clamp_park_hint_ms, is_non_retryable_failure, retry_after_ms_from_error,
  root_cause_message,
}
use synth_agent_runtime.Prelude.Int.{ℤ}
use synth_agent_runtime.Prelude.{
  Bool, List, Option, String, [], false, if_elim, length, list_eq, nat_eq, none, not, option_eq,
  or_else, pair_eq, refl, some, string_eq, subst, true, ℕ, ◌||◌, ◌∷◌, ◌≡◌,
}
use synth_agent_runtime.Temporal.Agent.{
  DurableAgentState, Next, Round, Turn, TurnState, Workflow, cancelled, finish, finished, go_on,
  handle_all, is_nil, is_over, on_returned, on_threw, on_turn, park, park_for, round, run, run_turn,
  set_failed, start, stop, threw, turn_completed, turn_idle, turn_waiting, work,
}

or-true : (b : Bool) → b || true ≡ true
or-true true = refl
or-true false = refl

-- What holds of the workflow whenever its loop has been left: the status says how it ended, and
-- a cancelled workflow says so.
abbrev pub IsEnded : Next → Type 0
IsEnded (go_on w) = Unit
IsEnded (stop w) =
    (w.is_cancelled ≡ true → w.status ≡ cancelled)
    × (w.is_cancelled ≡ false → is_over w.status ≡ true)

finish-IsEnded :
    (now : ℕ) (w : Workflow) → w.is_cancelled || is_over w.status ≡ true → IsEnded (finish now w)
unfolding finish
finish-IsEnded now w h =
    if_elim IsEnded w.is_cancelled _ (stop w) (λ t. (λ _. refl, λ f. absurd (cc)))
      (λ f. (λ t. absurd (cc), λ _. subst (λ b. b || is_over w.status ≡ true) f h))

park-IsEnded : (r : Round) (w : Workflow) → IsEnded (park r w)
unfolding park
park-IsEnded r w =
    let w' = handle_all w r.parked in
    if_elim IsEnded w'.is_cancelled (finish r.now w') (go_on w')
      (λ t. finish-IsEnded r.now w' (rw (t) refl)) (λ _. tt)

on_returned-IsEnded :
    (r : Round) (count : ℕ) (t : TurnState) (w : Workflow) → IsEnded (on_returned r count t w)
unfolding on_returned
on_returned-IsEnded r count turn_waiting w = park-IsEnded r _
on_returned-IsEnded r count turn_completed w = tt
on_returned-IsEnded r count turn_idle w = tt

park_for-IsEnded :
    (o : Option ℕ) (r : Round) (cause : String) (hint : Option ℤ) (w : Workflow)
    → IsEnded (park_for o r cause hint w)
unfolding park_for
park_for-IsEnded (some ms) r cause hint w = park-IsEnded r _
park_for-IsEnded none r cause hint w = park-IsEnded r _

on_threw-IsEnded : (r : Round) (f : Failure) (w : Workflow) → IsEnded (on_threw r f w)
unfolding on_threw
on_threw-IsEnded r f w =
    let hint = retry_after_ms_from_error f in
    let failed_state = set_failed r.now (root_cause_message f) w in
    if_elim IsEnded (is_non_retryable_failure f) _ _
      (λ _. finish-IsEnded r.now failed_state (or-true w.is_cancelled))
      (λ _. park_for-IsEnded (clamp_park_hint_ms hint) r (root_cause_message f) hint w)

on_turn-IsEnded : (r : Round) (count : ℕ) (t : Turn) (w : Workflow) → IsEnded (on_turn r count t w)
unfolding on_turn
on_turn-IsEnded r count (finished result returned) w =
    on_returned-IsEnded r count (or_else returned turn_idle) _
on_turn-IsEnded r count (threw f) w = on_threw-IsEnded r f w

run_turn-IsEnded : (r : Round) (w : Workflow) → IsEnded (run_turn r w)
unfolding run_turn
run_turn-IsEnded r w = on_turn-IsEnded r (length w.mailbox) r.turn _

work-IsEnded : (r : Round) (w : Workflow) → IsEnded (work r w)
unfolding work
work-IsEnded r w =
    let w' = record w { wake = false } in
    if_elim IsEnded w.is_cancelled _ _ (λ t. finish-IsEnded r.now w (rw (t) refl))
      (λ _.
        if_elim IsEnded (is_nil w.mailbox) (go_on w') (run_turn r w') (λ _. tt)
          (λ _. run_turn-IsEnded r w'))

round-IsEnded : (w : Workflow) (r : Round) → IsEnded (round w r)
unfolding round
round-IsEnded w r =
    let w' = handle_all w r.before in
    if_elim IsEnded (w.is_cancelled || is_over w.status) _ _ (λ t. finish-IsEnded r.now w t)
      (λ _.
        if_elim IsEnded (w'.wake || w'.is_cancelled || not (is_nil w'.mailbox)) (work r w')
          (go_on w') (λ _. work-IsEnded r w') (λ _. tt))

run-Ends : (n : Next) (rs : List Round) → IsEnded n → IsEnded (run n rs)
unfolding run
run-Ends n [] h = h
run-Ends (stop w) (r ∷ rs) h = h
run-Ends (go_on w) (r ∷ rs) h = run-Ends (round w r) rs (round-IsEnded w r)

-- The workflow ends only as cancelled, if it was told to cancel before it left its loop, and
-- otherwise as completed or failed: never idle, running or waiting.
pub run-IsEnded :
    (initial : DurableAgentState) (rs : List Round) → IsEnded (run (go_on (start initial)) rs)
run-IsEnded initial rs = run-Ends (go_on (start initial)) rs tt
