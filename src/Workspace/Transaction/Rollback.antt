-- ===== src/Workspace/Transaction/Rollback.antt =====
-- What a transaction that fails, or is rolled back, leaves.
use synth_agent_runtime.Prelude.{
  List, Option, Result, [], ap, arith, beq_refl, err, if◌then◌else◌, includes, length, list_eq,
  lookup, nat_eq, none, ok, option_beq, option_eq, pair_eq, refl, some, string_eq, suc, true, zero,
  ℕ, ◌∷◌, ◌≡◌,
}
use synth_agent_runtime.Workspace.Snapshot.{Bytes, Text}
use synth_agent_runtime.Workspace.Memory.{
  MemoryWorkspace, closed, directory, foreign_snapshot, link_at, restore, snapshot_of,
}
use synth_agent_runtime.Workspace.Memory.View.{
  is_deleted, read, read_at, read_over, read_source, stat,
}
use synth_agent_runtime.Workspace.Paths.{normal_parts, normalize_relative}
use synth_agent_runtime.Workspace.Memory.Listing.{changed_paths}
use synth_agent_runtime.Workspace.Diff.{base_of, diff, diff_paths}
use synth_agent_runtime.Workspace.Transaction.{
  WorkspaceTransaction, begin, commit, rollback, settle, thrown, undo, with_workspace_transaction,
}

-- What is rolled back is the workspace as it was, but for the directories that were made.
restore-snapshot_of :
    (ws u : MemoryWorkspace)
    → u.id ≡ ws.id
    → u.source ≡ ws.source
    → restore (snapshot_of ws) u ≡ ok (record ws { dirs = u.dirs })
unfolding restore snapshot_of
restore-snapshot_of ws u i s =
    rw (i, s)
      (ap
        (λ same.
          if same then ok (record ws { dirs = u.dirs }) else err (foreign_snapshot ws.id ws.id))
        (beq_refl ws.id))

-- What a path reads as does not depend on the directories that were made.
read_at-dirs :
    (decode : Bytes → Text) (ws : MemoryWorkspace) (dirs : List Text) (beyond : Option Bytes)
    (calls : ℕ) (path : Text)
    → read_at decode beyond calls (record ws { dirs = dirs }) path
      ≡ read_at decode beyond calls ws path
unfolding read_at is_deleted read_source link_at
read_at-dirs decode ws dirs beyond zero path = refl
read_at-dirs decode ws dirs beyond (suc calls) path =
    ap
      (λ again.
        read_over decode again ws (normalize_relative path)
          (lookup (normalize_relative path) ws.overlay))
      (λ i p. read_at-dirs decode ws dirs beyond calls p i)

read-dirs :
    (decode : Bytes → Text) (ws : MemoryWorkspace) (dirs : List Text) (path : Text)
    → read decode (record ws { dirs = dirs }) path ≡ read decode ws path
unfolding read
read-dirs decode ws dirs path =
    read_at-dirs decode ws dirs none (suc (suc (length (normal_parts path)))) path

diff_paths-dirs :
    (decode : Bytes → Text) (ws : MemoryWorkspace) (dirs : List Text) (paths : List Text)
    → diff_paths decode (record ws { dirs = dirs }) paths ≡ diff_paths decode ws paths
unfolding diff_paths base_of
diff_paths-dirs decode ws dirs [] = refl
diff_paths-dirs decode ws dirs (path ∷ paths) =
    rw (read-dirs decode ws dirs path, diff_paths-dirs decode ws dirs paths) refl

diff-dirs :
    (decode : Bytes → Text) (ws : MemoryWorkspace) (dirs : List Text)
    → diff decode (record ws { dirs = dirs }) ≡ diff decode ws
unfolding diff changed_paths
diff-dirs decode ws dirs = diff_paths-dirs decode ws dirs (changed_paths ws)

settle-thrown :
    {E T : Type 0} (ws : MemoryWorkspace) (r : Result E T × MemoryWorkspace) {error : E}
    → r.1.id ≡ ws.id
    → r.1.source ≡ ws.source
    → r.0 ≡ err error
    → settle (snapshot_of ws) r ≡ (err (thrown error), record ws { dirs = r.1.dirs })
unfolding settle undo
settle-thrown ws (ok value, u) i s e = absurd (cc)
settle-thrown {E} {T} ws (err thrown_error, u) {error} i s e =
    let same : thrown_error ≡ error = cc in rw (same, restore-snapshot_of ws u i s) refl

-- A transaction whose run throws, and keeps the id and the source, throws the same error; every path
-- then reads as before the transaction, and the diff is the one before it.
pub with_workspace_transaction_thrown :
    {E T : Type 0} (decode : Bytes → Text) (ws : MemoryWorkspace)
    (run : MemoryWorkspace → Result E T × MemoryWorkspace) (path : Text) {error : E}
    → (run ws).1.id ≡ ws.id
    → (run ws).1.source ≡ ws.source
    → (run ws).0 ≡ err error
    → ((with_workspace_transaction ws run).0 ≡ err (thrown error))
      × (read decode (with_workspace_transaction ws run).1 path ≡ read decode ws path)
      × (diff decode (with_workspace_transaction ws run).1 ≡ diff decode ws)
unfolding with_workspace_transaction
with_workspace_transaction_thrown decode ws run path {error} i s e =
    rw (settle-thrown ws (run ws) i s e)
      (refl, read-dirs decode ws (run ws).1.dirs path, diff-dirs decode ws (run ws).1.dirs)

-- A transaction that is rolled back leaves what a failed run leaves, and is closed: a second rollback
-- and a commit are refused.
pub rollback-begin :
    (decode : Bytes → Text) (ws u : MemoryWorkspace) (path : Text)
    → u.id ≡ ws.id
    → u.source ≡ ws.source
    → (t : WorkspaceTransaction) × (last : MemoryWorkspace) × (rollback (begin ws) u ≡ ok (t, last))
      × (read decode last path ≡ read decode ws path)
      × (diff decode last ≡ diff decode ws)
      × (rollback t last ≡ err closed)
      × (commit t ≡ err closed)
unfolding rollback begin commit
rollback-begin decode ws u path i s = (
  record (begin ws) { is_closed = true },
  record ws { dirs = u.dirs },
  rw (restore-snapshot_of ws u i s) refl,
  read-dirs decode ws u.dirs path,
  diff-dirs decode ws u.dirs,
  refl,
  refl,
)

-- The directories that a failed run made are still directories.
pub stat_made :
    {E T : Type 0} (ws : MemoryWorkspace) (run : MemoryWorkspace → Result E T × MemoryWorkspace)
    (path : Text) {error : E}
    → (run ws).1.id ≡ ws.id
    → (run ws).1.source ≡ ws.source
    → (run ws).0 ≡ err error
    → includes (normalize_relative path) (run ws).1.dirs ≡ true
    → lookup (normalize_relative path) ws.overlay ≡ none
    → lookup (normalize_relative path) ws.links ≡ none
    → stat (with_workspace_transaction ws run).1 path ≡ some directory
unfolding with_workspace_transaction stat option_beq
stat_made ws run path i s e made o l =
    rw (settle-thrown ws (run ws) i s e, o, l, made) (ground arith)
