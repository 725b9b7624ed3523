-- ===== src/Durability/LocalStore.antt =====
-- src/durability/local-runtime-state.ts: `LocalRuntimeStateStore`. A record is a value, so the
-- clones of the source are not visible.
pub mod Monotone
mod Tests
use synth_agent_runtime.Prelude.{
  Bool, List, Map, Option, String, [], false, if◌then◌else◌, insert, keep, list_eq, lookup, nat_eq,
  none, option_eq, some, string_eq, true, values, ◌||◌,
}
use synth_agent_runtime.Durability.State.{
  ClaimResult, DurableCommandRecord, DurableEffectRecord, DurableTurnRecord,
  DurableWorkspaceCheckpoint, TurnStatus, can_replace_command, can_replace_effect, is_committed,
  is_started, rolled_back, turn_committed, turn_failed, turn_started,
}

pub record LocalRuntimeStateStore (R : Type 0) : Type 0 where
  pub commands : Map String DurableCommandRecord
  pub workspaces : Map String DurableWorkspaceCheckpoint
  pub turns : Map String DurableTurnRecord
  pub effects : Map String (DurableEffectRecord R)

abbrev pub empty_store : (R : Type 0) → LocalRuntimeStateStore R
empty_store R = record { commands = []; workspaces = []; turns = []; effects = [] }

abbrev pub is_turn_status : TurnStatus → TurnStatus → Bool
is_turn_status turn_started turn_started = true
is_turn_status turn_committed turn_committed = true
is_turn_status rolled_back rolled_back = true
is_turn_status turn_failed turn_failed = true
is_turn_status _ _ = false

-- `existing?.status === "committed" || existing?.status === "started"`
unfoldable pub blocks_claim : Option DurableCommandRecord → Option DurableCommandRecord
blocks_claim none = none
blocks_claim (some c) = if is_committed c.status || is_started c.status then some c else none

module _ {R : Type 0} where
  unfoldable pub put_command :
      LocalRuntimeStateStore R → DurableCommandRecord → LocalRuntimeStateStore R
  unfolding can_replace_command
  put_command s c =
      if can_replace_command (lookup c.id s.commands) c
      then record s { commands = insert c.id c s.commands }
      else s

  unfoldable pub get_command : LocalRuntimeStateStore R → String → Option DurableCommandRecord
  get_command s i = lookup i s.commands

  unfoldable pub claim_command :
      LocalRuntimeStateStore R
      → DurableCommandRecord
      → ClaimResult DurableCommandRecord × LocalRuntimeStateStore R
  unfolding blocks_claim
  claim_command s c = elim (blocks_claim (lookup c.id s.commands)) [
    | some existing ↦ (record { claimed = false; entry = existing }, s)
    | none ↦
        (record { claimed = true; entry = c }, record s { commands = insert c.id c s.commands })
  ]

  unfoldable pub put_workspace_checkpoint :
      LocalRuntimeStateStore R → DurableWorkspaceCheckpoint → LocalRuntimeStateStore R
  put_workspace_checkpoint s c = record s { workspaces = insert c.workspace_id c s.workspaces }

  unfoldable pub get_workspace_checkpoint :
      LocalRuntimeStateStore R → String → Option DurableWorkspaceCheckpoint
  get_workspace_checkpoint s i = lookup i s.workspaces

  unfoldable pub put_turn : LocalRuntimeStateStore R → DurableTurnRecord → LocalRuntimeStateStore R
  put_turn s t = record s { turns = insert t.id t s.turns }

  unfoldable pub get_turn : LocalRuntimeStateStore R → String → Option DurableTurnRecord
  get_turn s i = lookup i s.turns

  unfoldable pub list_turns : LocalRuntimeStateStore R → Option TurnStatus → List DurableTurnRecord
  list_turns s none = values s.turns
  list_turns s (some status) = keep (λ t. is_turn_status t.status status) (values s.turns)

  unfoldable pub put_effect :
      LocalRuntimeStateStore R → DurableEffectRecord R → LocalRuntimeStateStore R
  unfolding can_replace_effect
  put_effect s e =
      if can_replace_effect (lookup e.id s.effects) e
      then record s { effects = insert e.id e s.effects }
      else s

  unfoldable pub get_effect : LocalRuntimeStateStore R → String → Option (DurableEffectRecord R)
  get_effect s i = lookup i s.effects

  unfoldable pub claim_effect :
      LocalRuntimeStateStore R
      → DurableEffectRecord R
      → ClaimResult (DurableEffectRecord R) × LocalRuntimeStateStore R
  claim_effect s e = elim (lookup e.id s.effects) [
    | some existing ↦ (record { claimed = false; entry = existing }, s)
    | none ↦ (record { claimed = true; entry = e }, record s { effects = insert e.id e s.effects })
  ]
