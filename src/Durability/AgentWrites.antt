-- ===== src/Durability/AgentWrites.antt =====
-- src/durability/types.ts: `persistAgentSnapshot`, and the snapshot of src/core/types.ts without its
-- metadata. A provider is a record of the two functions that it calls, on a state `S`.
pub mod Fenced
mod Tests
use synth_agent_runtime.Prelude.{
  Bool, List, Option, Result, String, err, false, list_eq, nat_eq, none, ok, option_eq, pair_eq,
  some, string_eq, true, ℕ,
}
use synth_agent_runtime.ControlPlane.Mailbox.{AgentMessage}

pub data AgentState : Type 0 where
  idle thinking waiting_for_tool waiting_for_agent waiting_for_human : AgentState
  waiting_for_resource sleeping blocked completed failed cancelled : AgentState

pub record AgentSnapshot : Type 0 where
  pub id : String
  pub definition_id : String
  pub task_id : Option String
  pub workspace_id : String
  pub state : AgentState
  pub created_at : ℕ
  pub updated_at : ℕ
  pub mailbox : List AgentMessage

pub record AgentWriteFence : Type 0 where
  pub resource_id : String
  pub owner_id : String
  pub fencing_token : ℕ

pub record DurabilityProvider (S : Type 0) : Type 0 where
  pub put_agent : AgentSnapshot → S → S
  pub put_agent_fenced : Option (AgentSnapshot → AgentWriteFence → S → Bool × S)

pub data WriteError : Type 0 where
  fenced_agent_write_unsupported : String → WriteError
  agent_fence_rejected : String → AgentWriteFence → WriteError

pub data Done : Type 0 where
  done : Done

module _ {S : Type 0} where
  -- what the fenced write answers
  unfoldable pub on_fenced : AgentSnapshot → AgentWriteFence → Bool × S → Result WriteError Done × S
  on_fenced snapshot fence (true, s) = (ok done, s)
  on_fenced snapshot fence (false, s) = (err (agent_fence_rejected snapshot.id fence), s)

  unfoldable pub persist_fenced :
      Option (AgentSnapshot → AgentWriteFence → S → Bool × S)
      → AgentSnapshot
      → AgentWriteFence
      → S
      → Result WriteError Done × S
  unfolding on_fenced
  persist_fenced none snapshot fence s = (err (fenced_agent_write_unsupported snapshot.id), s)
  persist_fenced (some put) snapshot fence s = on_fenced snapshot fence (put snapshot fence s)

  unfoldable pub persist_agent_snapshot :
      DurabilityProvider S → AgentSnapshot → Option AgentWriteFence → S → Result WriteError Done × S
  unfolding persist_fenced
  persist_agent_snapshot d snapshot none s = (ok done, d.put_agent snapshot s)
  persist_agent_snapshot d snapshot (some fence) s =
      persist_fenced d.put_agent_fenced snapshot fence s
