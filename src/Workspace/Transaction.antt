-- ===== src/Workspace/Transaction.antt =====
-- src/workspace/transaction.ts. What runs inside a transaction is a function on the workspace that
-- returns a value or throws an `E`.
pub mod Rollback
mod Tests
use synth_agent_runtime.Prelude.{
  Bool, Result, err, false, if◌then◌else◌, list_eq, nat_eq, ok, option_eq, pair_eq, string_eq, true,
  ◌>>=◌, ◌>>◌,
}
use synth_agent_runtime.Workspace.Snapshot.{WorkspaceSnapshot, snapshot}
use synth_agent_runtime.Workspace.Memory.{
  MemoryWorkspace, WorkspaceError, closed, restore, snapshot_of,
}

pub data TransactionError (E : Type 0) : Type 0 where
  thrown : E → TransactionError E
  not_restored : WorkspaceError → TransactionError E

-- The rollback of a failed run: what it leaves, and what is thrown.
abbrev pub undone :
    {E T : Type 0}
    → E
    → MemoryWorkspace
    → Result WorkspaceError MemoryWorkspace
    → Result (TransactionError E) T × MemoryWorkspace
undone error ws (ok restored) = (err (thrown error), restored)
undone error ws (err failure) = (err (not_restored failure), ws)

unfoldable pub undo :
    {E T : Type 0}
    → E
    → WorkspaceSnapshot
    → MemoryWorkspace
    → Result (TransactionError E) T × MemoryWorkspace
unfolding restore
undo error before ws = undone error ws (restore before ws)

unfoldable pub settle :
    {E T : Type 0}
    → WorkspaceSnapshot
    → Result E T × MemoryWorkspace
    → Result (TransactionError E) T × MemoryWorkspace
unfolding undo
settle before (ok value, ws) = (ok value, ws)
settle before (err error, ws) = undo error before ws

unfoldable pub with_workspace_transaction :
    {E T : Type 0}
    → MemoryWorkspace
    → (MemoryWorkspace → Result E T × MemoryWorkspace)
    → Result (TransactionError E) T × MemoryWorkspace
unfolding snapshot_of settle
with_workspace_transaction ws run = settle (snapshot_of ws) (run ws)

pub record WorkspaceTransaction : Type 0 where
  pub snapshot : WorkspaceSnapshot
  pub is_closed : Bool

unfoldable pub begin : MemoryWorkspace → WorkspaceTransaction
unfolding snapshot_of
begin ws = record { snapshot = snapshot_of ws; is_closed = false }

unfoldable pub commit : WorkspaceTransaction → Result WorkspaceError WorkspaceTransaction
commit t = if t.is_closed then err closed else ok (record t { is_closed = true })

-- The transaction after a rollback and the workspace; a failed restore leaves both as they were.
unfoldable pub rollback :
    WorkspaceTransaction
    → MemoryWorkspace
    → Result WorkspaceError (WorkspaceTransaction × MemoryWorkspace)
unfolding restore
rollback t ws =
    if t.is_closed
    then err closed
    else (do restored ← restore t.snapshot ws; ok (record t { is_closed = true }, restored))
