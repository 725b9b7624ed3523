-- ===== src/Temporal/Agent.antt =====
-- integrations/temporal/src/workflows.ts: `durableAgentWorkflow`. A round of its loop is a function
-- of the signals that arrive at the three points where it waits, of what the `runTurn` activity
-- comes to, and of the clock. `received`, `consumed` and `offered` are history variables that the code
-- does not have: every message that a signal brought, every message that a turn took off the mailbox,
-- and when the last turn began, those taken off before with the batch that this turn was given.
-- `turnConfig` and the search attributes are only passed on, and are left out with the logging.
pub mod Mailbox
pub mod Lifecycle
mod Tests
use synth_agent_runtime.Prelude.{
  Bool, List, Option, String, [], drop, false, if◌then◌else◌, length, list_eq, ltb, nat_eq, none,
  not, option_eq, or_else, pair_eq, some, string_eq, take, true, ℕ, ◌*◌, ◌++◌, ◌+◌, ◌||◌, ◌∷◌,
}
use synth_agent_runtime.Prelude.Int.{negsuc, pos, ℤ}
use synth_agent_runtime.Prelude.Json.{Json, text}
use synth_agent_runtime.Temporal.Failures.{
  Failure, ParkBackoff, clamp_park_hint_ms, is_non_retryable_failure, max_park_hint_ms,
  retry_after_ms_from_error, root_cause_message,
}
use Prim.Native.String.{◌++◌ as concat}

pub data Role : Type 0 where
  human agent system : Role

pub record DurableMailboxMessage : Type 0 where
  pub id : String
  pub role : Role
  pub text : String
  pub created_at : ℕ
  pub kind : Option String

pub data Status : Type 0 where
  idle running waiting completed failed cancelled : Status

pub record DurableAgentState : Type 0 where
  pub agent_id : String
  pub status : Status
  pub mailbox : List DurableMailboxMessage
  pub last_result : Option Json
  pub last_error : Option String
  pub updated_at : ℕ
  pub park_backoff : Option ParkBackoff

-- the variables of the workflow
pub record Workflow : Type 0 where
  pub state : DurableAgentState
  pub open state use *
  pub is_cancelled : Bool
  pub wake : Bool
  pub park_attempt : ℕ
  pub received : List DurableMailboxMessage
  pub consumed : List DurableMailboxMessage
  pub offered : List DurableMailboxMessage

pub data Signal : Type 0 where
  send_message : DurableMailboxMessage → ℕ → Signal
  cancel_agent : Signal

pub data TurnState : Type 0 where
  turn_idle turn_waiting turn_completed : TurnState

-- what the activity comes to, its retries included
pub data Turn : Type 0 where
  finished : Option Json → Option TurnState → Turn
  threw : Failure → Turn

pub record Round : Type 0 where
  -- the signals handled while the loop waits for work, while the turn runs and while it is parked
  pub before : List Signal
  pub during : List Signal
  pub parked : List Signal
  pub turn : Turn
  pub now : ℕ

unfoldable pub handle : Workflow → Signal → Workflow
handle w (send_message m now) = record w {
  state = record w.state { mailbox = w.mailbox ++ m ∷ []; updated_at = now };
  wake = true;
  received = w.received ++ m ∷ [];
}
handle w cancel_agent = record w { is_cancelled = true; wake = true }

unfoldable pub handle_all : Workflow → List Signal → Workflow
unfolding handle
handle_all w [] = w
handle_all w (s ∷ ss) = handle_all (handle w s) ss

abbrev pub is_nil {ℓ} : {A : Type ℓ} → List A → Bool
is_nil [] = true
is_nil (x ∷ xs) = false

abbrev pub start : DurableAgentState → Workflow
start initial = record {
  state = initial;
  is_cancelled = false;
  wake = not (is_nil initial.mailbox);
  park_attempt = 0;
  received = [];
  consumed = [];
  offered = [];
}

abbrev pub is_over : Status → Bool
is_over completed = true
is_over failed = true
is_over _ = false

-- The loop goes on, or the workflow ends.
pub data Next : Type 0 where
  go_on stop : Workflow → Next

abbrev pub after : Next → Workflow
after (go_on w) = w
after (stop w) = w

-- `if (cancelled) { state.status = "cancelled"; … }` behind the loop
unfoldable pub finish : ℕ → Workflow → Next
finish now w =
    if w.is_cancelled
    then stop (record w { state = record w.state { status = cancelled; updated_at = now } })
    else stop w

-- `await condition(() => cancelled, backoffMs)`, then `break` or `continue`
unfoldable pub park : Round → Workflow → Next
unfolding finish handle_all
park r w = let w' = handle_all w r.parked in if w'.is_cancelled then finish r.now w' else go_on w'

-- the state that a park leaves: waiting, with the error of the turn
abbrev pub set_waiting : ℕ → Option String → ℕ → Workflow → Workflow
set_waiting attempt error now w = record w {
  state = record w.state { status = waiting; last_error = error; updated_at = now };
  park_attempt = attempt;
}

-- the mailbox without the messages that the turn was given, `splice(0, consumedCount)`
abbrev pub splice : ℕ → Workflow → Workflow
splice count w = record w {
  state = record w.state { mailbox = drop count w.mailbox };
  consumed = w.consumed ++ take count w.mailbox;
}

abbrev pub set_returned : Status → Workflow → Workflow
set_returned status w = record w {
  state = record w.state { status = status; last_error = none };
  park_attempt = 0;
}

unfoldable pub on_returned : Round → ℕ → TurnState → Workflow → Next
unfolding park
on_returned r count turn_waiting w = park r (set_waiting (w.park_attempt + 1) none r.now w)
on_returned r count turn_completed w = go_on (set_returned completed w)
on_returned r count turn_idle w = go_on (splice count (set_returned idle w))

-- `rawHint > MAX_PARK_HINT_MS`
unfoldable pub is_quota_exhausted : Option ℤ → Bool
is_quota_exhausted none = false
is_quota_exhausted (some (pos n)) = ltb max_park_hint_ms n
is_quota_exhausted (some (negsuc n)) = false

-- How long a retryable failure parks the agent: for as long as the clamped hint says, or by the
-- backoff that grows with each attempt.
unfoldable pub park_for : Option ℕ → Round → String → Option ℤ → Workflow → Next
unfolding park is_quota_exhausted
park_for (some ms) r cause hint w = park r (set_waiting w.park_attempt (some cause) r.now w)
park_for none r cause hint w =
    let quota = concat "QUOTA_EXHAUSTED:" cause in
    park r (
      set_waiting (w.park_attempt + 1) (some (if is_quota_exhausted hint then quota else cause))
        r.now w)

abbrev pub set_failed : ℕ → String → Workflow → Workflow
set_failed now cause w = record w {
  state = record w.state { status = failed; last_error = some cause; updated_at = now };
}

unfoldable pub on_threw : Round → Failure → Workflow → Next
unfolding park_for finish clamp_park_hint_ms
on_threw r f w =
    let cause = root_cause_message f in
    let hint = retry_after_ms_from_error f in
    if is_non_retryable_failure f
    then finish r.now (set_failed r.now cause w)
    else park_for (clamp_park_hint_ms hint) r cause hint w

unfoldable pub on_turn : Round → ℕ → Turn → Workflow → Next
unfolding on_returned on_threw
on_turn r count (finished result returned) w =
    on_returned r count (or_else returned turn_idle)
      (record w { state = record w.state { last_result = result; updated_at = r.now } })
on_turn r count (threw f) w = on_threw r f w

-- the body of the loop from `state.status = "running"` on
unfoldable pub run_turn : Round → Workflow → Next
unfolding on_turn handle_all
run_turn r w =
    let w' = record w {
      state = record w.state { status = running; updated_at = r.now };
      offered = w.consumed ++ w.mailbox;
    } in
    on_turn r (length w.mailbox) r.turn (handle_all w' r.during)

-- the body of the loop, once `condition` holds
unfoldable pub work : Round → Workflow → Next
unfolding run_turn finish
work r w =
    if w.is_cancelled
    then finish r.now w
    else let w' = record w { wake = false } in if is_nil w.mailbox then go_on w' else run_turn r w'

-- One round: the loop's test, the wait for work, and the body. While nothing wakes it, it waits on.
unfoldable pub round : Workflow → Round → Next
unfolding work finish handle_all
round w r =
    if w.is_cancelled || is_over w.status
    then finish r.now w
    else let w' = handle_all w r.before in
      if w'.wake || w'.is_cancelled || not (is_nil w'.mailbox) then work r w' else go_on w'

-- The rounds one after another, until the workflow ends.
unfoldable pub run : Next → List Round → Next
unfolding round
run n [] = n
run (stop w) (r ∷ rs) = stop w
run (go_on w) (r ∷ rs) = run (round w r) rs
