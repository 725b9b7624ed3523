-- ===== src/Workspace/Memory/View/Refinement.antt =====
-- A workspace refines a map of files: writes and deletes that succeed have on what a path reads as
-- the effect they have on the map.
use synth_agent_runtime.Prelude.{
  All, List, Option, Result, [], arith, false, if◌then◌else◌, list_eq, lookup, nat_eq, none, ok,
  option_eq, pair_eq, refl, some, string_eq, ◌==◌, ◌>>=◌, ◌∙◌, ◌∷◌, ◌≡◌,
}
use synth_agent_runtime.Workspace.Snapshot.{Bytes, Content, Text}
use synth_agent_runtime.Workspace.Paths.{normalize_relative}
use synth_agent_runtime.Workspace.Memory.{
  MemoryWorkspace, WorkspaceError, bytes_of, delete_path, is_under, is_within, put_bytes, remove,
  write,
}
use synth_agent_runtime.Workspace.Memory.View.{read}
use synth_agent_runtime.Workspace.Memory.View.Writes.{
  lookup_link-put_bytes, lookup_link-remove, read-put_bytes, read-remove,
}

-- The abstract state: the content of each normal path, where it has one.
abbrev pub Files : Type 0
Files = Text → Option Bytes

pub data Change : Type 0 where
  writes : Text → Content → Change
  deletes : Text → Change

abbrev pub path_of : Change → Text
path_of (writes path content) = path
path_of (deletes path) = path

module _ (encode : Text → Bytes) where
  -- The specification: a write replaces one file, a delete removes a subtree.
  abbrev pub put_file : Change → Files → Files
  put_file (writes path content) files q =
      if normalize_relative path == q then some (bytes_of encode content) else files q
  put_file (deletes path) files q = if is_within (normalize_relative path) q then none else files q

  abbrev pub put_files : List Change → Files → Files
  put_files [] files = files
  put_files (c ∷ changes) files = put_files changes (put_file c files)

  unfoldable pub apply : Change → MemoryWorkspace → Result WorkspaceError MemoryWorkspace
  unfolding write delete_path
  apply (writes path content) ws = write encode path content ws
  apply (deletes path) ws = delete_path path ws

  unfoldable pub apply_all : List Change → MemoryWorkspace → Result WorkspaceError MemoryWorkspace
  unfolding apply
  apply_all [] ws = ok ws
  apply_all (c ∷ changes) ws = do next ← apply c ws; apply_all changes next

  -- A change that does not touch the root, and does not make a file of a directory above `q`.
  abbrev pub IsProper : Text → Change → Type 0
  IsProper q (writes path content) =
      ((normalize_relative path == []) ≡ false) × (is_under q (normalize_relative path) ≡ false)
  IsProper q (deletes path) = (normalize_relative path == []) ≡ false

  module _ (decode : Bytes → Text) (q : Text) (normal : normalize_relative q ≡ q) where
    -- One change succeeds, has its effect on `q`, and puts no link there.
    abbrev Refines : Change → MemoryWorkspace → Type 0
    Refines c ws =
        (next : MemoryWorkspace) × (apply c ws ≡ ok next)
        × (read decode next q ≡ put_file c (read decode ws) q)
        × (lookup q next.links ≡ none)

    apply-put_file :
        (c : Change) (ws : MemoryWorkspace) → IsProper q c → lookup q ws.links ≡ none → Refines c ws
    unfolding apply write delete_path
    apply-put_file (writes path content) ws h free = (
      put_bytes (normalize_relative path) (bytes_of encode content) ws,
      rw h.0 refl,
      rw normal at (
          read-put_bytes decode ws (normalize_relative path) q (bytes_of encode content)
            (rw normal free) (rw normal h.1)),
      lookup_link-put_bytes ws (normalize_relative path) q (bytes_of encode content) ∙ free,
    )
    apply-put_file (deletes path) ws h free = (
      remove (normalize_relative path) ws,
      rw h refl,
      rw normal at (read-remove decode ws (normalize_relative path) q h (rw normal free)),
      rw (lookup_link-remove (normalize_relative path) q ws, free) (ground arith),
    )

    put_files_same :
        (changes : List Change) (f g : Files)
        → f q ≡ g q
        → put_files changes f q ≡ put_files changes g q
    put_files_same [] f g h = h
    put_files_same (writes path content ∷ changes) f g h = put_files_same changes _ _ (rw h refl)
    put_files_same (deletes path ∷ changes) f g h = put_files_same changes _ _ (rw h refl)

    -- Changes that do not touch the root, and make no file of a directory above the normal path
    -- `q`, at which no link stands, all succeed, and `q` then reads as the same changes of the map
    -- of files leave it.
    pub apply_all-put_files :
        (changes : List Change) (ws : MemoryWorkspace)
        → All (IsProper q) changes
        → lookup q ws.links ≡ none
        → (last : MemoryWorkspace) × (apply_all changes ws ≡ ok last)
          × (read decode last q ≡ put_files changes (read decode ws) q)
    unfolding apply_all
    apply_all-put_files [] ws h free = (ws, refl, refl)
    apply_all-put_files (c ∷ changes) ws h free =
        let step = apply-put_file c ws h.0 free in
        let later = apply_all-put_files changes step.0 h.1 step.3 in
        (
          later.0,
          rw step.1 later.1,
          later.2
              ∙ put_files_same changes (read decode step.0) (put_file c (read decode ws)) step.2,
        )
