-- ===== src/Temporal/Agent/Tests.antt =====
-- The agent loop at two messages, one that starts a turn and one that comes while it runs.
use synth_agent_runtime.Prelude.Int.{pos, whole}
use synth_agent_runtime.Prelude.{
  [], list_eq, nat_eq, none, option_eq, pair_eq, some, string_eq, ◌∷◌,
}
use synth_agent_runtime.Temporal.Agent.{
  DurableAgentState, DurableMailboxMessage, Round, after, cancel_agent, finished, go_on, human,
  idle, run, send_message, start, turn_idle,
}
use synth_agent_runtime.Temporal.Agent.Mailbox.{IsConserved, run-IsConserved}
use synth_agent_runtime.Temporal.Agent.Lifecycle.{IsEnded, run-IsEnded}
use synth_agent_runtime.Temporal.Failures.{ParkBackoff}

abbrev message : DurableMailboxMessage
message = record { id = "m1"; role = human; text = "go"; created_at = 1; kind = none }

abbrev another : DurableMailboxMessage
another = record message { id = "m2" }

abbrev initial : DurableAgentState
initial = record {
  agent_id = "agent";
  status = idle;
  mailbox = [];
  last_result = none;
  last_error = none;
  updated_at = 0;
  park_backoff = none;
}

abbrev busy_round : Round
busy_round = record {
  before = send_message message 1 ∷ [];
  during = send_message another 2 ∷ [];
  parked = [];
  turn = finished none (some turn_idle);
  now = 3;
}

abbrev last_round : Round
last_round = record busy_round { before = []; during = cancel_agent ∷ []; now = 4 }

run-IsConserved_example :
    IsConserved [] (after (run (go_on (start initial)) (busy_round ∷ last_round ∷ [])))
run-IsConserved_example = run-IsConserved initial (busy_round ∷ last_round ∷ [])

run-IsEnded_example : IsEnded (run (go_on (start initial)) (busy_round ∷ last_round ∷ []))
run-IsEnded_example = run-IsEnded initial (busy_round ∷ last_round ∷ [])

abbrev backoff : ParkBackoff
backoff = record { initial_ms = whole (pos 2); max_ms = whole (pos 100) }
