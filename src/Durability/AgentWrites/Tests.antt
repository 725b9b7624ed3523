-- ===== src/Durability/AgentWrites/Tests.antt =====
-- A provider that counts its writes and accepts fencing tokens from 3 on.
use synth_agent_runtime.Prelude.{
  [], leb, list_eq, nat_eq, none, option_eq, pair_eq, some, string_eq, ℕ, ◌+◌,
}
use synth_agent_runtime.Durability.AgentWrites.{
  AgentSnapshot, AgentWriteFence, DurabilityProvider, idle,
}

abbrev provider : DurabilityProvider ℕ
provider = record {
  put_agent = λ a s. s + 1;
  put_agent_fenced = some (λ a fence s. (leb 3 fence.fencing_token, s + 1));
}

abbrev agent : AgentSnapshot
agent = record {
  id = "agent";
  definition_id = "coder";
  task_id = none;
  workspace_id = "workspace";
  state = idle;
  created_at = 1;
  updated_at = 1;
  mailbox = [];
}

abbrev fence : AgentWriteFence
fence = record { resource_id = "cell"; owner_id = "a"; fencing_token = 4 }
