-- ===== src/ControlPlane/Mailbox.antt =====
-- src/control-plane/mailbox.ts: `InMemoryMailboxStore`. The clock is an argument of the methods
-- that read it; an agent's messages are a list in the order of their sequence numbers.
pub mod Delivery
mod Tests
use Prim.Native.String.{◌++◌ as concat}
use synth_agent_runtime.Prelude.Int.{pos_part, ℤ}
use synth_agent_runtime.Prelude.{
  Bool, List, Map, Option, String, [], false, find, insert, keep, last, list_eq, lookup, ltb, max,
  min, nat_eq, none, option_eq, or_else, some, string_eq, take, true, ℕ, ◌++◌, ◌+◌, ◌==◌, ◌∷◌,
}

pub data Role : Type 0 where
  human agent system : Role

pub record AgentMessage : Type 0 where
  pub id : String
  pub role : Role
  pub text : String
  pub created_at : ℕ

pub record MailboxEnvelope : Type 0 where
  pub agent_id : String
  pub seq : ℕ
  pub message : AgentMessage
  pub appended_at : ℕ

pub record MailboxAppendResult : Type 0 where
  pub envelope : MailboxEnvelope
  pub inserted : Bool

pub record MailboxCursor : Type 0 where
  pub agent_id : String
  pub consumer_id : String
  pub ack_seq : ℕ
  pub updated_at : ℕ

pub record MailboxStore : Type 0 where
  pub messages : Map String (List MailboxEnvelope)
  pub cursors : Map String MailboxCursor

abbrev pub empty_store : MailboxStore
empty_store = record { messages = []; cursors = [] }

-- `this.#messages.get(agentId) ?? []`
abbrev pub box : MailboxStore → String → List MailboxEnvelope
box s agent_id = or_else (lookup agent_id s.messages) []

abbrev pub seq_of : Option MailboxEnvelope → ℕ
seq_of none = 0
seq_of (some e) = e.seq

-- `items.at(-1)?.seq ?? 0`
abbrev pub last_seq : List MailboxEnvelope → ℕ
last_seq items = seq_of (last items)

abbrev pub has_id : String → MailboxEnvelope → Bool
has_id i e = e.message.id == i

unfoldable pub append_new :
    MailboxStore
    → String
    → AgentMessage
    → ℕ
    → List MailboxEnvelope
    → MailboxAppendResult × MailboxStore
append_new s agent_id message now items =
    let envelope : MailboxEnvelope = record {
      agent_id = agent_id;
      seq = last_seq items + 1;
      message = message;
      appended_at = now;
    } in
    (
      record { envelope = envelope; inserted = true },
      record s { messages = insert agent_id (items ++ envelope ∷ []) s.messages },
    )

pub append_mailbox : MailboxStore → String → AgentMessage → ℕ → MailboxAppendResult × MailboxStore
unfolding append_new
append_mailbox s agent_id message now = elim (find (has_id message.id) (box s agent_id)) [
  | some existing ↦ (record { envelope = existing; inserted = false }, s)
  | none ↦ append_new s agent_id message now (box s agent_id)
]

-- `Math.max(0, limit)` is the positive part of the limit.
pub read_mailbox : MailboxStore → String → ℕ → ℤ → List MailboxEnvelope
read_mailbox s agent_id after_seq limit =
    take (pos_part limit) (keep (λ e. ltb after_seq e.seq) (box s agent_id))

-- `${agentId}\u0000${consumerId}`
unfoldable pub cursor_key : String → String → String
cursor_key agent_id consumer = concat agent_id (concat "\0" consumer)

pub get_mailbox_cursor : MailboxStore → String → String → Option MailboxCursor
get_mailbox_cursor s agent_id consumer = lookup (cursor_key agent_id consumer) s.cursors

abbrev pub ack_of : Option MailboxCursor → ℕ
ack_of none = 0
ack_of (some c) = c.ack_seq

pub ack_mailbox : MailboxStore → String → String → ℕ → ℕ → MailboxCursor × MailboxStore
ack_mailbox s agent_id consumer through_seq now =
    let key = cursor_key agent_id consumer in
    let existing = lookup key s.cursors in
    let cursor : MailboxCursor = record {
      agent_id = agent_id;
      consumer_id = consumer;
      ack_seq = max (ack_of existing) (min through_seq (last_seq (box s agent_id)));
      updated_at = now;
    } in
    (cursor, record s { cursors = insert key cursor s.cursors })
