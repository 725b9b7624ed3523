-- ===== src/Workspace/Transaction/Tests.antt =====
-- A run that writes a file and then throws.
use synth_agent_runtime.Prelude.{
  Result, String, [], err, list_eq, nat_eq, none, option_eq, pair_eq, refl, string_eq, ℕ, ◌∷◌, ◌≡◌,
}
use synth_agent_runtime.Workspace.Snapshot.{Bytes, Text}
use synth_agent_runtime.Workspace.Memory.{MemoryWorkspace, new_workspace, put_bytes}
use synth_agent_runtime.Workspace.Memory.View.{read}
use synth_agent_runtime.Workspace.Diff.{diff}
use synth_agent_runtime.Workspace.Transaction.{thrown, with_workspace_transaction}
use synth_agent_runtime.Workspace.Transaction.Rollback.{with_workspace_transaction_thrown}

abbrev as_text : Bytes → Text
as_text bytes = bytes

abbrev empty_workspace : MemoryWorkspace
empty_workspace = new_workspace "workspace" none

abbrev write_and_throw : MemoryWorkspace → Result String ℕ × MemoryWorkspace
write_and_throw ws = (err "boom", put_bytes (97 ∷ []) (1 ∷ []) ws)

with_workspace_transaction_thrown_example :
    ((with_workspace_transaction empty_workspace write_and_throw).0 ≡ err (thrown "boom"))
    × (read as_text (with_workspace_transaction empty_workspace write_and_throw).1 (97 ∷ [])
        ≡ read as_text empty_workspace (97 ∷ []))
    × (diff as_text (with_workspace_transaction empty_workspace write_and_throw).1
        ≡ diff as_text empty_workspace)
unfolding put_bytes
with_workspace_transaction_thrown_example =
    with_workspace_transaction_thrown as_text empty_workspace write_and_throw (97 ∷ []) refl refl
      refl
