-- ===== src/Durability/State.antt =====
-- src/durability/runtime-state.ts: the durable records and the rules for replacing them.
use synth_agent_runtime.Prelude.{
  Bool, List, Option, String, false, if◌then◌else◌, list_eq, ltb, nat_eq, none, not, option_eq,
  or_else, some, string_eq, true, ℕ, ◌&&◌,
}
use synth_agent_runtime.Prelude.Json.{Json}
use synth_agent_runtime.Workspace.Snapshot.{SerializedWorkspaceSnapshot}

pub data CommandStatus : Type 0 where
  started committed failed : CommandStatus

pub data TurnStatus : Type 0 where
  turn_started turn_committed rolled_back turn_failed : TurnStatus

-- `CommandStatus` and `EffectStatus` have the same values.
abbrev pub EffectStatus : Type 0
EffectStatus = CommandStatus

pub record DurableCommandRecord : Type 0 where
  pub id : String
  pub status : CommandStatus
  pub started_at : ℕ
  pub updated_at : ℕ
  pub result : Option Json
  pub error : Option String
  pub owner_id : Option String
  pub fencing_token : Option ℕ
  pub lease_expires_at : Option ℕ
  pub reconciliation_required : Option Bool

pub record DurableEffectRecord (R : Type 0) : Type 0 where
  pub id : String
  pub status : EffectStatus
  pub kind : String
  pub started_at : ℕ
  pub updated_at : ℕ
  pub result : Option R
  pub error : Option String

pub record DurableWorkspaceCheckpoint : Type 0 where
  pub workspace_id : String
  pub snapshot : SerializedWorkspaceSnapshot
  pub reason : String
  pub created_at : ℕ

pub record DurableTurnRecord : Type 0 where
  pub id : String
  pub agent_id : Option String
  pub workspace_id : String
  pub attempt_id : String
  pub status : TurnStatus
  pub started_at : ℕ
  pub updated_at : ℕ
  pub base : SerializedWorkspaceSnapshot
  pub semantic_exposed : Bool
  pub buffered_output_count : ℕ
  pub staged_effect_ids : List String
  pub error : Option String

pub record ClaimResult (T : Type 0) : Type 0 where
  pub claimed : Bool
  pub entry : T

abbrev pub is_committed : CommandStatus → Bool
is_committed committed = true
is_committed _ = false

abbrev pub is_failed : CommandStatus → Bool
is_failed failed = true
is_failed _ = false

abbrev pub is_started : CommandStatus → Bool
is_started started = true
is_started _ = false

abbrev pub fence_of : DurableCommandRecord → ℕ
fence_of c = or_else c.fencing_token 0

unfoldable pub can_replace_command : Option DurableCommandRecord → DurableCommandRecord → Bool
can_replace_command none next = true
can_replace_command (some existing) next =
    if ltb (fence_of next) (fence_of existing)
    then false
    else if is_committed existing.status && not (is_committed next.status)
    then false
    else true

unfoldable pub can_replace_effect :
    {R : Type 0} → Option (DurableEffectRecord R) → DurableEffectRecord R → Bool
can_replace_effect none next = true
can_replace_effect (some existing) next =
    if is_committed existing.status && not (is_committed next.status)
    then false
    else if is_failed existing.status && is_started next.status
    then false
    else true
