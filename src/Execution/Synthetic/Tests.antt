-- ===== src/Execution/Synthetic/Tests.antt =====
-- Effects on a world with one workspace.
use synth_agent_runtime.Prelude.{
  List, String, [], list_beq, list_eq, lookup, nat_eq, none, option_beq, option_eq, pair_eq,
  push_unit, refl, starts_with, string_eq, ℕ, ◌∷◌, ◌≡◌,
}
use synth_agent_runtime.Workspace.Snapshot.{Bytes, Text, uint8_array}
use synth_agent_runtime.Workspace.Memory.{new_workspace}
use synth_agent_runtime.Workspace.Diff.{EncodedWorkspaceDiff}
use synth_agent_runtime.Execution.Effects.{Effect, EffectContext, workspace_write}
use synth_agent_runtime.Execution.Synthetic.{World, execute}
use synth_agent_runtime.Execution.Synthetic.Frame.{execute_refused}

abbrev units : List ℕ → List ℕ
units text = text

abbrev shown : Text → String
shown text = "text"

abbrev counted : ℕ → String
counted n = "many"

abbrev as_json : EncodedWorkspaceDiff → Bytes
as_json d = []

abbrev context : EffectContext
context = record {
  agent_id = "agent";
  task_id = none;
  workspace_id = "workspace";
  execution_policy = none;
}

-- A write of `../a`, which would leave the workspace.
abbrev escaping : Effect
escaping = record {
  id = "effect";
  operation = workspace_write (46 ∷ 46 ∷ 47 ∷ 97 ∷ []) (uint8_array (1 ∷ []));
}

abbrev one_workspace : World
one_workspace = record {
  workspaces = ("workspace", new_workspace "workspace" none) ∷ [];
  blob_store = none;
}

execute_refused_example :
    (execute units units shown counted units units as_json "artifact" 0 escaping context
      one_workspace).1
    ≡ one_workspace
unfolding execute lookup starts_with option_beq push_unit list_beq
execute_refused_example =
    execute_refused units units shown counted units units as_json "artifact" 0 escaping context
      one_workspace refl
