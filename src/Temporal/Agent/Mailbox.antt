-- ===== src/Temporal/Agent/Mailbox.antt =====
-- No message is lost, repeated or reordered by the agent's loop.
use synth_agent_runtime.Prelude.Json.{Json}
use synth_agent_runtime.Prelude.Int.{ℤ}
use synth_agent_runtime.Prelude.{
  List, Option, String, [], ap, append-nil, append_assoc, drop, drop-length_append, false, if_elim,
  length, list_eq, nat_eq, none, not, option_eq, or_else, pair_eq, refl, some, string_eq, subst,
  sym, take, take-append-drop, take-length_append, ℕ, ◌++◌, ◌+◌, ◌||◌, ◌∙◌, ◌∷◌, ◌≡◌,
}
use synth_agent_runtime.Temporal.Failures.{
  Failure, clamp_park_hint_ms, is_non_retryable_failure, retry_after_ms_from_error,
  root_cause_message,
}
use synth_agent_runtime.Temporal.Agent.{
  DurableAgentState, DurableMailboxMessage, Next, Round, Signal, Turn, TurnState, Workflow, after,
  cancel_agent, finish, finished, go_on, handle, handle_all, idle, is_nil, is_over, on_returned,
  on_threw, on_turn, park, park_for, round, run, run_turn, running, send_message, set_failed,
  set_returned, set_waiting, splice, start, stop, threw, turn_completed, turn_idle, turn_waiting,
  work,
}

-- the messages that the signals bring
abbrev pub sent_by : List Signal → List DurableMailboxMessage
sent_by [] = []
sent_by (send_message m now ∷ ss) = m ∷ sent_by ss
sent_by (cancel_agent ∷ ss) = sent_by ss

handle_all-mailbox :
    (w : Workflow) (ss : List Signal) → (handle_all w ss).mailbox ≡ w.mailbox ++ sent_by ss
unfolding handle_all handle
handle_all-mailbox w [] = sym (append-nil w.mailbox)
handle_all-mailbox w (send_message m now ∷ ss) =
    handle_all-mailbox (handle w (send_message m now)) ss
    ∙ append_assoc w.mailbox (m ∷ []) (sent_by ss)
handle_all-mailbox w (cancel_agent ∷ ss) = handle_all-mailbox (handle w cancel_agent) ss

handle_all-consumed : (w : Workflow) (ss : List Signal) → (handle_all w ss).consumed ≡ w.consumed
unfolding handle_all handle
handle_all-consumed w [] = refl
handle_all-consumed w (send_message m now ∷ ss) =
    handle_all-consumed (handle w (send_message m now)) ss
handle_all-consumed w (cancel_agent ∷ ss) = handle_all-consumed (handle w cancel_agent) ss

handle_all-offered : (w : Workflow) (ss : List Signal) → (handle_all w ss).offered ≡ w.offered
unfolding handle_all handle
handle_all-offered w [] = refl
handle_all-offered w (send_message m now ∷ ss) =
    handle_all-offered (handle w (send_message m now)) ss
handle_all-offered w (cancel_agent ∷ ss) = handle_all-offered (handle w cancel_agent) ss

-- What was taken off the mailbox and what is in it, in order, is what it began with and what came,
-- and what was taken off are messages that a turn was given, from the first on.
abbrev pub IsConserved : List DurableMailboxMessage → Workflow → Type 0
IsConserved begin w =
    (w.consumed ++ w.mailbox ≡ begin ++ w.received)
    × (rest : List DurableMailboxMessage) × (w.consumed ++ rest ≡ w.offered)

-- The first `count` messages of the mailbox are the batch that the turn was given.
abbrev IsGiven : ℕ → Workflow → Type 0
IsGiven count w = w.consumed ++ take count w.mailbox ≡ w.offered

handle-IsConserved :
    (begin : List DurableMailboxMessage) (w : Workflow) (s : Signal)
    → IsConserved begin w
    → IsConserved begin (handle w s)
unfolding handle
handle-IsConserved begin w (send_message m now) h = (
  sym (append_assoc w.consumed w.mailbox (m ∷ []))
      ∙ ap (λ (l : List DurableMailboxMessage). l ++ m ∷ []) h.0
      ∙ append_assoc begin w.received (m ∷ []),
  h.1,
  h.2,
)
handle-IsConserved begin w cancel_agent h = h

handle_all-IsConserved :
    (begin : List DurableMailboxMessage) (w : Workflow) (ss : List Signal)
    → IsConserved begin w
    → IsConserved begin (handle_all w ss)
unfolding handle_all
handle_all-IsConserved begin w [] h = h
handle_all-IsConserved begin w (s ∷ ss) h =
    handle_all-IsConserved begin (handle w s) ss (handle-IsConserved begin w s h)

module _ (begin : List DurableMailboxMessage) where
  abbrev Keeps : Next → Type 0
  Keeps n = IsConserved begin (after n)

  finish-Keeps : (now : ℕ) (w : Workflow) → IsConserved begin w → Keeps (finish now w)
  unfolding finish
  finish-Keeps now w h = if_elim Keeps w.is_cancelled _ (stop w) (λ _. h) (λ _. h)

  park-Keeps : (r : Round) (w : Workflow) → IsConserved begin w → Keeps (park r w)
  unfolding park
  park-Keeps r w h =
      let w' = handle_all w r.parked in
      let h' = handle_all-IsConserved begin w r.parked h in
      if_elim Keeps w'.is_cancelled (finish r.now w') (go_on w') (λ _. finish-Keeps r.now w' h')
        (λ _. h')

  splice-Keeps :
      (count : ℕ) (w : Workflow)
      → IsGiven count w
      → IsConserved begin w
      → IsConserved begin (splice count w)
  splice-Keeps count w g h = (
    append_assoc w.consumed (take count w.mailbox) (drop count w.mailbox)
        ∙ ap (λ l. w.consumed ++ l) (take-append-drop count w.mailbox)
        ∙ h.0,
    [],
    append-nil (w.consumed ++ take count w.mailbox) ∙ g,
  )

  on_returned-Keeps :
      (r : Round) (count : ℕ) (t : TurnState) (w : Workflow)
      → IsGiven count w
      → IsConserved begin w
      → Keeps (on_returned r count t w)
  unfolding on_returned
  on_returned-Keeps r count turn_waiting w g h =
      park-Keeps r (set_waiting (w.park_attempt + 1) none r.now w) h
  on_returned-Keeps r count turn_completed w g h = h
  on_returned-Keeps r count turn_idle w g h = splice-Keeps count (set_returned idle w) g h

  park_for-Keeps :
      (o : Option ℕ) (r : Round) (cause : String) (hint : Option ℤ) (w : Workflow)
      → IsConserved begin w
      → Keeps (park_for o r cause hint w)
  unfolding park_for
  park_for-Keeps (some ms) r cause hint w h = park-Keeps r _ h
  park_for-Keeps none r cause hint w h = park-Keeps r _ h

  on_threw-Keeps :
      (r : Round) (f : Failure) (w : Workflow) → IsConserved begin w → Keeps (on_threw r f w)
  unfolding on_threw
  on_threw-Keeps r f w h =
      if_elim Keeps (is_non_retryable_failure f) _ _
        (λ _. finish-Keeps r.now (set_failed r.now (root_cause_message f) w) h)
        (λ _.
          park_for-Keeps (clamp_park_hint_ms (retry_after_ms_from_error f)) r (root_cause_message f)
            (retry_after_ms_from_error f) w h)

  on_turn-Keeps :
      (r : Round) (count : ℕ) (t : Turn) (w : Workflow)
      → IsGiven count w
      → IsConserved begin w
      → Keeps (on_turn r count t w)
  unfolding on_turn
  on_turn-Keeps r count (finished result returned) w g h =
      on_returned-Keeps r count (or_else returned turn_idle) _ g h
  on_turn-Keeps r count (threw f) w g h = on_threw-Keeps r f w h

  -- What signals bring while a turn runs does not change which messages it was given.
  handle_all-IsGiven :
      (w : Workflow) (ss : List Signal)
      → w.offered ≡ w.consumed ++ w.mailbox
      → IsGiven (length w.mailbox) (handle_all w ss)
  handle_all-IsGiven w ss e =
      rw (handle_all-consumed w ss, handle_all-mailbox w ss, handle_all-offered w ss, e)
        (ap (λ l. w.consumed ++ l) (take-length_append w.mailbox (sent_by ss)))

  run_turn-Keeps : (r : Round) (w : Workflow) → IsConserved begin w → Keeps (run_turn r w)
  unfolding run_turn
  run_turn-Keeps r w h =
      let w' = record w {
        state = record w.state { status = running; updated_at = r.now };
        offered = w.consumed ++ w.mailbox;
      } in
      on_turn-Keeps r (length w.mailbox) r.turn (handle_all w' r.during)
        (handle_all-IsGiven w' r.during refl)
        (handle_all-IsConserved begin w' r.during (h.0, w.mailbox, refl))

  work-Keeps : (r : Round) (w : Workflow) → IsConserved begin w → Keeps (work r w)
  unfolding work
  work-Keeps r w h =
      let w' = record w { wake = false } in
      if_elim Keeps w.is_cancelled _ _ (λ _. finish-Keeps r.now w h)
        (λ _.
          if_elim Keeps (is_nil w.mailbox) (go_on w') (run_turn r w') (λ _. h)
            (λ _. run_turn-Keeps r w' h))

  round-Keeps : (w : Workflow) (r : Round) → IsConserved begin w → Keeps (round w r)
  unfolding round
  round-Keeps w r h =
      let w' = handle_all w r.before in
      let h' = handle_all-IsConserved begin w r.before h in
      if_elim Keeps (w.is_cancelled || is_over w.status) _ _ (λ _. finish-Keeps r.now w h)
        (λ _.
          if_elim Keeps (w'.wake || w'.is_cancelled || not (is_nil w'.mailbox)) (work r w')
            (go_on w') (λ _. work-Keeps r w' h') (λ _. h'))

  run-Keeps : (n : Next) (rs : List Round) → Keeps n → Keeps (run n rs)
  unfolding run
  run-Keeps n [] h = h
  run-Keeps (stop w) (r ∷ rs) h = h
  run-Keeps (go_on w) (r ∷ rs) h = run-Keeps (round w r) rs (round-Keeps w r h)

-- Whatever signals arrive, and whenever they do, and whatever the turns come to: at every point of
-- the workflow, the messages that turns took off the mailbox, followed by those in it, are the
-- messages it began with followed by those that signals brought, in the order they came in. Those
-- taken off are the first of the messages that a turn had in its mailbox when it began: none is
-- taken off that came in while the turn ran.
pub run-IsConserved :
    (initial : DurableAgentState) (rs : List Round)
    → IsConserved initial.mailbox (after (run (go_on (start initial)) rs))
run-IsConserved initial rs =
    run-Keeps initial.mailbox (go_on (start initial)) rs
      (sym (append-nil initial.mailbox), [], refl)

on_turn-idle :
    (r : Round) (w : Workflow) (result : Option Json) (given sent : List DurableMailboxMessage)
    → w.mailbox ≡ given ++ sent
    → let w' = after (on_turn r (length given) (finished result (some turn_idle)) w) in
      w'.mailbox ≡ sent × w'.consumed ≡ w.consumed ++ given
unfolding on_turn on_returned
on_turn-idle r w result given sent e =
    let left = ap (drop (length given)) e ∙ drop-length_append given sent in
    let taken = ap (take (length given)) e ∙ take-length_append given sent in
    (left, ap (λ l. w.consumed ++ l) taken)

-- A turn that returns idle takes just the messages that were in the mailbox when it began: those
-- that arrive while it runs are all that the mailbox holds afterwards, in the order they came in.
pub idle_turn :
    (r : Round) (w : Workflow) (result : Option Json)
    → r.turn ≡ finished result (some turn_idle)
    → (after (run_turn r w)).mailbox ≡ sent_by r.during
      × (after (run_turn r w)).consumed ≡ w.consumed ++ w.mailbox
unfolding run_turn
idle_turn r w result e =
    let w' = record w {
      state = record w.state { status = running; updated_at = r.now };
      offered = w.consumed ++ w.mailbox;
    } in
    let w'' = handle_all w' r.during in
    let h =
      on_turn-idle r w'' result w.mailbox (sent_by r.during) (handle_all-mailbox w' r.during) in
    subst
      (λ t.
        let end = after (on_turn r (length w.mailbox) t w'') in
        end.mailbox ≡ sent_by r.during × end.consumed ≡ w.consumed ++ w.mailbox)
      (sym e) (h.0, h.1 ∙ ap (λ l. l ++ w.mailbox) (handle_all-consumed w' r.during))
