-- ===== src/Execution/Effects.antt =====
-- src/execution/types.ts, and `ExecutionPolicy` of src/execution/resource-class.ts.
use synth_agent_runtime.Prelude.{
  Bool, List, Map, Option, Result, String, false, list_eq, nat_eq, none, option_eq, some, string_eq,
  true, ℕ,
}
use synth_agent_runtime.Prelude.Json.{Json}
use synth_agent_runtime.Workspace.Snapshot.{Bytes, Content, Text}

pub record ExecCommand : Type 0 where
  pub command : String
  pub cwd : Option String
  pub env : Option (Map String String)
  pub timeout_ms : Option ℕ
  pub resource_class : Option String

pub data Operation : Type 0 where
  workspace_read workspace_delete : Text → Operation
  workspace_write : Text → Content → Operation
  workspace_replace : Text → Text → Text → Operation
  workspace_symlink : Text → Text → Operation
  workspace_list : Option Text → Operation
  workspace_export : Operation
  process_exec : ExecCommand → Operation
  workflow_run : String → Option Json → Operation
  human_approval : String → Option Json → Operation

pub record Effect : Type 0 where
  pub id : String
  pub operation : Operation

-- `effect.kind`
abbrev pub kind_of : Operation → String
kind_of (workspace_read path) = "workspace.read"
kind_of (workspace_delete path) = "workspace.delete"
kind_of (workspace_write path content) = "workspace.write"
kind_of (workspace_replace path old_text new_text) = "workspace.replace"
kind_of (workspace_symlink path target) = "workspace.symlink"
kind_of (workspace_list path) = "workspace.list"
kind_of workspace_export = "workspace.export"
kind_of (process_exec command) = "process.exec"
kind_of (workflow_run name input) = "workflow.run"
kind_of (human_approval prompt detail) = "human.approval"

pub record ExecutionPolicy : Type 0 where
  pub preferred_class : Option String
  pub allowed_classes : Option (List String)
  pub min_fidelity : Option ℕ
  pub allow_escalation : Option Bool
  pub project_cell_id : Option String

pub record EffectContext : Type 0 where
  pub agent_id : String
  pub task_id : Option String
  pub workspace_id : String
  pub execution_policy : Option ExecutionPolicy

pub record ArtifactRef : Type 0 where
  pub digest : String
  pub size : ℕ
  pub media_type : String
  pub mechanism : String
  pub produced_by : Option String
  pub produced_from : Option (List String)

pub data Output : Type 0 where
  no_output : Output
  file : Option Bytes → Output
  names : List Text → Output
  other : Json → Output

pub record EffectResult : Type 0 where
  pub is_ok : Bool
  pub output : Output
  pub error : Option String
  pub executor : Option String
  pub fidelity : Option ℕ
  pub artifact : Option ArtifactRef

-- `{ ok: true }` and `{ ok: false, error }`
abbrev pub success : EffectResult
success = record {
  is_ok = true;
  output = no_output;
  error = none;
  executor = none;
  fidelity = none;
  artifact = none;
}

abbrev pub failure : String → EffectResult
failure message = record success { is_ok = false; error = some message }

-- An executor acts on a world `W`; a call of it may throw a message.
pub record Executor (W : Type 0) : Type 0 where
  pub id : String
  pub fidelity : ℕ
  pub resource_class_id : Option String
  pub can_execute : Effect → EffectContext → W → Result String Bool × W
  pub execute : Effect → EffectContext → W → Result String EffectResult × W
