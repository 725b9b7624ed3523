-- ===== src/Workspace/Memory/Invariant.antt =====
-- The paths that a workspace holds are normal, and none is the root.
use synth_agent_runtime.Prelude.{
  All, All-append, All-keep, Bool, List, Map, Option, Result, String, [], add, delete, erase, err,
  false, if_elim, includes, insert, keep, keys, length, list_eq, lookup, nat_eq, none, not, ok,
  option_eq, or_else, pair_eq, refl, string_eq, suc, ℕ, ◌++◌, ◌+◌, ◌==◌, ◌∷◌, ◌≡◌,
}
use synth_agent_runtime.Workspace.Snapshot.{Bytes, Content, Text, WorkspaceSnapshot}
use synth_agent_runtime.Workspace.Paths.{escapes_workspace, normal_parts, normalize_relative}
use synth_agent_runtime.Workspace.Paths.Normal.{normalize_relative_idempotent}
use synth_agent_runtime.Workspace.Memory.{
  MemoryWorkspace, TreeSource, WorkspaceError, bytes_of, delete_path, drop_each, drop_path,
  is_resolved, is_under, is_within, link_at, new_workspace, put_bytes, remove, restore, symlink_to,
  write,
}
use synth_agent_runtime.Workspace.Links.{resolve_symlink_target}
use synth_agent_runtime.Workspace.Memory.View.{read, read_at}
use synth_agent_runtime.Workspace.Memory.View.Reads.{read_ends}

module _ (P : Text → Type 0) where
  All-insert :
      {V : Type 0} (k : Text) (v : V) (m : Map Text V)
      → P k
      → All P (keys m)
      → All P (keys (insert k v m))
  unfolding insert
  All-insert k v [] p h = (p, tt)
  All-insert k v ((j, w) ∷ m) p h =
      if_elim (λ r. All P (keys r)) (j == k) ((j, v) ∷ m) ((j, w) ∷ insert k v m) (λ _. h)
        (λ _. (h.0, All-insert k v m p h.1))

  All-erase : {V : Type 0} (k : Text) (m : Map Text V) → All P (keys m) → All P (keys (erase k m))
  unfolding erase
  All-erase k [] h = tt
  All-erase k ((j, w) ∷ m) h =
      if_elim (λ r. All P (keys r)) (j == k) (erase k m) ((j, w) ∷ erase k m)
        (λ _. All-erase k m h.1) (λ _. (h.0, All-erase k m h.1))

  All-keep-keys :
      {V : Type 0} (p : Text × V → Bool) (m : Map Text V) → All P (keys m) → All P (keys (keep p m))
  unfolding keep
  All-keep-keys p [] h = tt
  All-keep-keys p (e ∷ m) h =
      if_elim (λ r. All P (keys r)) (p e) (e ∷ keep p m) (keep p m)
        (λ _. (h.0, All-keep-keys p m h.1)) (λ _. All-keep-keys p m h.1)

  All-add : (k : Text) (s : List Text) → P k → All P s → All P (add k s)
  unfolding add
  All-add k s p h =
      if_elim (All P) (includes k s) s (s ++ k ∷ []) (λ _. h)
        (λ _. All-append P s (k ∷ []) h (p, tt))

  All-delete : (k : Text) (s : List Text) → All P s → All P (delete k s)
  unfolding delete
  All-delete k [] h = tt
  All-delete k (x ∷ s) h =
      if_elim (All P) (x == k) (delete k s) (x ∷ delete k s) (λ _. All-delete k s h.1)
        (λ _. (h.0, All-delete k s h.1))

abbrev pub IsKey : Text → Type 0
IsKey p = (normalize_relative p ≡ p) × ((p == []) ≡ false)

abbrev pub IsWellFormed : MemoryWorkspace → Type 0
IsWellFormed ws =
    All IsKey (keys ws.overlay)
    × All IsKey (keys ws.links)
    × All IsKey ws.deleted
    × All IsKey ws.changed

root_unlinked : (m : Map Text Text) → All IsKey (keys m) → lookup [] m ≡ none
unfolding lookup
root_unlinked [] h = refl
root_unlinked ((k, v) ∷ m) h = rw h.0.1 (root_unlinked m h.1)

-- The calls of the operations that change a workspace; one that throws changes nothing.
pub data Call : Type 0 where
  call_write : Text → Content → Call
  call_symlink : Text → Text → Call
  call_delete : Text → Call
  call_restore : WorkspaceSnapshot → Call

-- The paths of a snapshot that is restored are normal, and none is the root.
abbrev pub IsSound : Call → Type 0
IsSound (call_restore s) =
    All IsKey (keys s.overlay)
    × All IsKey (keys (or_else s.links []))
    × All IsKey s.deleted
    × All IsKey s.changed
IsSound (call_write path content) = Unit
IsSound (call_symlink path target) = Unit
IsSound (call_delete path) = Unit

abbrev kept : MemoryWorkspace → Result WorkspaceError MemoryWorkspace → MemoryWorkspace
kept ws (ok next) = next
kept ws (err error) = ws

module _ (encode : Text → Bytes) where
  abbrev called : Call → MemoryWorkspace → Result WorkspaceError MemoryWorkspace
  called (call_write path content) ws = write encode path content ws
  called (call_symlink path target) ws = symlink_to path target ws
  called (call_delete path) ws = delete_path path ws
  called (call_restore s) ws = restore s ws

  abbrev pub run_calls : List Call → MemoryWorkspace → MemoryWorkspace
  run_calls [] ws = ws
  run_calls (c ∷ calls) ws = run_calls calls (kept ws (called c ws))

  IsWellFormed-drop_each :
      (doomed : List Text) (ws : MemoryWorkspace)
      → All IsKey doomed
      → IsWellFormed ws
      → IsWellFormed (drop_each doomed ws)
  unfolding drop_each
  IsWellFormed-drop_each [] ws d v = v
  IsWellFormed-drop_each (key ∷ doomed) ws d v =
      IsWellFormed-drop_each doomed (drop_path key ws) d.1 (
        All-erase IsKey key ws.overlay v.0,
        v.1,
        All-add IsKey key ws.deleted d.0 v.2,
        All-add IsKey key ws.changed d.0 v.3,
      )

  IsWellFormed-remove :
      (p : Text) (ws : MemoryWorkspace) → IsKey p → IsWellFormed ws → IsWellFormed (remove p ws)
  unfolding remove
  IsWellFormed-remove p ws k v =
      let dropped : IsWellFormed (drop_path p ws) = (
        All-erase IsKey p ws.overlay v.0,
        v.1,
        All-add IsKey p ws.deleted k v.2,
        All-add IsKey p ws.changed k v.3,
      ) in
      let doomed = keep (λ key. is_under key p) (keys (drop_path p ws).overlay) in
      let r =
        IsWellFormed-drop_each doomed (drop_path p ws)
          (All-keep IsKey (λ key. is_under key p) (keys (drop_path p ws).overlay) dropped.0)
          dropped in
      (
        r.0,
        All-keep-keys IsKey (λ link. not (is_within p link.0))
            (drop_each doomed (drop_path p ws)).links r.1,
        r.2,
        r.3,
      )

  IsWellFormed-called :
      (c : Call) (ws : MemoryWorkspace)
      → IsSound c
      → IsWellFormed ws
      → IsWellFormed (kept ws (called c ws))
  unfolding write symlink_to delete_path put_bytes remove restore
  IsWellFormed-called (call_write path content) ws s v =
      if_elim (λ r. IsWellFormed (kept ws r)) (normalize_relative path == []) _ _ (λ _. v)
        (λ root.
          let k : IsKey (normalize_relative path) = (normalize_relative_idempotent path, root) in
          (
            All-insert IsKey (normalize_relative path) (bytes_of encode content) ws.overlay k v.0,
            v.1,
            All-delete IsKey (normalize_relative path) ws.deleted v.2,
            All-add IsKey (normalize_relative path) ws.changed k v.3,
          ))
  IsWellFormed-called (call_symlink path target) ws s v =
      if_elim (λ r. IsWellFormed (kept ws r)) (normalize_relative path == []) _ _ (λ _. v)
        (λ root.
          let k : IsKey (normalize_relative path) = (normalize_relative_idempotent path, root) in
          if_elim (λ r. IsWellFormed (kept ws r)) (escapes_workspace (normalize_relative path)) _ _
            (λ _. v)
            (λ _.
              if_elim (λ r. IsWellFormed (kept ws r))
                (is_resolved
                  (resolve_symlink_target (link_at ws) (normalize_relative path) target none))
                _ _
                (λ _. (
                  v.0,
                  All-insert IsKey (normalize_relative path) target ws.links k v.1,
                  All-delete IsKey (normalize_relative path) ws.deleted v.2,
                  All-add IsKey (normalize_relative path) ws.changed k v.3,
                ))
                (λ _. v)))
  IsWellFormed-called (call_restore s) ws sound v =
      if_elim (λ r. IsWellFormed (kept ws r)) (s.id == ws.id) _ _ (λ _. sound) (λ _. v)
  IsWellFormed-called (call_delete path) ws s v =
      if_elim (λ r. IsWellFormed (kept ws r)) (normalize_relative path == []) _ _ (λ _. v)
        (λ root.
          IsWellFormed-remove (normalize_relative path) ws
            (normalize_relative_idempotent path, root) v)

  pub run_calls-IsWellFormed :
      (calls : List Call) (ws : MemoryWorkspace)
      → All IsSound calls
      → IsWellFormed ws
      → IsWellFormed (run_calls calls ws)
  run_calls-IsWellFormed [] ws s v = v
  run_calls-IsWellFormed (c ∷ calls) ws s v =
      run_calls-IsWellFormed calls (kept ws (called c ws)) s.1 (IsWellFormed-called c ws s.0 v)

  -- After any writes, links, deletes and restores on a new workspace, where the paths of the restored
  -- snapshots are normal and not the root, so are those of the workspace, and a read of it ends: it
  -- never makes a call beyond its bound, nor beyond a larger one, since whatever such a call would
  -- answer, the bytes are the same.
  pub read_ends-run_calls :
      (decode : Bytes → Text) (id : String) (source : Option TreeSource) (calls : List Call)
      (beyond : Option Bytes) (more : ℕ) (path : Text)
      → All IsSound calls
      → IsWellFormed (run_calls calls (new_workspace id source))
        × (read_at decode beyond
              (suc (suc (more + length (normal_parts path))))
              (run_calls calls (new_workspace id source))
              path
            ≡ read decode (run_calls calls (new_workspace id source)) path)
  read_ends-run_calls decode id source calls beyond more path sound =
      let v = run_calls-IsWellFormed calls (new_workspace id source) sound (tt, tt, tt, tt) in
      (
        v,
        read_ends decode (run_calls calls (new_workspace id source)) beyond more path
            (root_unlinked _ v.1),
      )
