-- ===== src/ControlPlane/Mailbox/Tests.antt =====
-- The mailbox theorems at a mailbox with two messages.
use synth_agent_runtime.Prelude.{
  List, [], length, list_eq, nat_eq, option_eq, pair_eq, string_eq, ◌++◌, ◌+◌, ◌∷◌, ◌≡◌,
}
use synth_agent_runtime.Prelude.Int.{pos}
use synth_agent_runtime.ControlPlane.Mailbox.{
  AgentMessage, MailboxStore, empty_store, human, read_mailbox,
}
use synth_agent_runtime.ControlPlane.Mailbox.Delivery.{
  Call, IsWellFormed, appends, read_pages, run, run-IsWellFormed_from_empty,
}

abbrev hello : AgentMessage
hello = record { id = "m1"; role = human; text = "hello"; created_at = 1 }

abbrev bye : AgentMessage
bye = record { id = "m2"; role = human; text = "bye"; created_at = 2 }

abbrev sends : List Call
sends = appends "agent" hello 1 ∷ appends "agent" bye 2 ∷ []

abbrev two_messages : MailboxStore
two_messages = run empty_store sends

read_pages_example :
    let page = read_mailbox two_messages "agent" 0 (pos 1) in
    page ++ read_mailbox two_messages "agent" (0 + length page) (pos 5)
    ≡ read_mailbox two_messages "agent" 0 (pos 6)
read_pages_example = read_pages two_messages "agent" 0 1 5 (run-IsWellFormed_from_empty sends)

run-IsWellFormed_from_empty_example : IsWellFormed (run empty_store sends)
run-IsWellFormed_from_empty_example = run-IsWellFormed_from_empty sends
