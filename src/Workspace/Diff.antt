-- ===== src/Workspace/Diff.antt =====
-- src/workspace/memory-workspace.ts: `diff`, `encodeWorkspaceDiff` and `decodeWorkspaceDiff`, and
-- `restoreSandboxWorkspace` of src/execution/kubernetes/sandbox-workspace.ts, which applies a
-- decoded diff. The base64 of Node's `Buffer` is the pair of parameters `to_base64` and
-- `of_base64`; what `JSON.parse` makes of a written diff is that diff.
pub mod Restore
pub mod Changes
pub mod Checkpoint
pub mod Roundtrip
mod Tests
use synth_agent_runtime.Prelude.{
  List, Option, Result, [], if◌then◌else◌, list_eq, map, nat_eq, none, ok, option_eq, pair_eq, some,
  string_eq, ◌==◌, ◌>>=◌, ◌>>◌, ◌∷◌,
}
use synth_agent_runtime.Workspace.Snapshot.{Bytes, Text, WorkspaceRevision, uint8_array}
use synth_agent_runtime.Workspace.Memory.{
  MemoryWorkspace, SourceInfo, TreeSource, WorkspaceError, delete_path, directory, file, symlink,
  write,
}
use synth_agent_runtime.Workspace.Memory.View.{read, stat}
use synth_agent_runtime.Workspace.Memory.Listing.{changed_paths}

pub data ChangeKind : Type 0 where
  added modified removed : ChangeKind

pub record WorkspaceChange : Type 0 where
  pub path : Text
  pub kind : ChangeKind
  pub content : Option Bytes

pub record EncodedChange : Type 0 where
  pub path : Text
  pub kind : ChangeKind
  pub content_base64 : Option Text

pub record WorkspaceDiff : Type 0 where
  pub revision : Option WorkspaceRevision
  pub changes : List WorkspaceChange

pub record EncodedWorkspaceDiff : Type 0 where
  pub revision : Option WorkspaceRevision
  pub changes : List EncodedChange

abbrev pub change_of : Text → ChangeKind → Option Bytes → WorkspaceChange
change_of path kind content = record { path = path; kind = kind; content = content }

-- `equalBytes(base, current)` and the choice of the kind
unfoldable pub compare_with : Text → Option Bytes → Option Bytes → Option WorkspaceChange
compare_with path none none = none
compare_with path (some base) none = some (change_of path removed none)
compare_with path none (some current) = some (change_of path added (some current))
compare_with path (some base) (some current) =
    if base == current then none else some (change_of path modified (some current))

abbrev pub base_from : TreeSource → Text → Option SourceInfo → Option Bytes
base_from source path none = none
base_from source path (some info) = elim info.kind [
  | file ↦ some (source.read_file path)
  | directory ↦ none
  | symlink ↦ none
]

unfoldable pub base_of : MemoryWorkspace → Text → Option Bytes
base_of ws path = elim ws.source [
  | none ↦ none
  | some source ↦ base_from source path (source.stat path)
]

abbrev pub add_change : Option WorkspaceChange → List WorkspaceChange → List WorkspaceChange
add_change none changes = changes
add_change (some change) changes = change ∷ changes

module _ (decode : Bytes → Text) where
  unfoldable pub diff_paths : MemoryWorkspace → List Text → List WorkspaceChange
  unfolding compare_with base_of read
  diff_paths ws [] = []
  diff_paths ws (path ∷ paths) =
      add_change (compare_with path (base_of ws path) (read decode ws path)) (diff_paths ws paths)

  unfoldable pub diff : MemoryWorkspace → List WorkspaceChange
  unfolding diff_paths changed_paths
  diff ws = diff_paths ws (changed_paths ws)

module _ (to_base64 : Bytes → Text) where
  abbrev pub encode_change : WorkspaceChange → EncodedChange
  encode_change change = record {
    path = change.path;
    kind = change.kind;
    content_base64 = elim change.content [ none ↦ none | some bytes ↦ some (to_base64 bytes) ];
  }

  unfoldable pub encode_workspace_diff : WorkspaceDiff → EncodedWorkspaceDiff
  encode_workspace_diff d = record { revision = d.revision; changes = map encode_change d.changes }

module _ (of_base64 : Text → Bytes) where
  -- `change.contentBase64 ? { content } : {}`: an empty string is no content
  abbrev pub content_of : Option Text → Option Bytes
  content_of none = none
  content_of (some text) = if text == [] then none else some (of_base64 text)

  abbrev pub decode_change : EncodedChange → WorkspaceChange
  decode_change change = record {
    path = change.path;
    kind = change.kind;
    content = content_of change.content_base64;
  }

  unfoldable pub decode_workspace_diff : EncodedWorkspaceDiff → WorkspaceDiff
  decode_workspace_diff d = record { revision = d.revision; changes = map decode_change d.changes }

-- One change of `restoreSandboxWorkspace`; a change without content is passed over.
abbrev pub restore_content :
    Text → Option Bytes → MemoryWorkspace → Result WorkspaceError MemoryWorkspace
restore_content path none ws = ok ws
restore_content path (some bytes) ws = write (λ text. text) path (uint8_array bytes) ws

unfoldable pub restore_kind :
    ChangeKind → Text → Option Bytes → MemoryWorkspace → Result WorkspaceError MemoryWorkspace
unfolding delete_path write
restore_kind removed path content ws = delete_path path ws
restore_kind added path content ws = restore_content path content ws
restore_kind modified path content ws = restore_content path content ws

unfoldable pub restore_change :
    WorkspaceChange → MemoryWorkspace → Result WorkspaceError MemoryWorkspace
unfolding restore_kind
restore_change change ws = restore_kind change.kind change.path change.content ws

unfoldable pub restore_changes :
    List WorkspaceChange → MemoryWorkspace → Result WorkspaceError MemoryWorkspace
unfolding restore_change
restore_changes [] ws = ok ws
restore_changes (change ∷ changes) ws = do
  next ← restore_change change ws
  restore_changes changes next

-- `restoreSandboxWorkspace`, once the bytes of the diff are read from the blob store and parsed.
unfoldable pub restore_sandbox_workspace :
    (Text → Bytes) → EncodedWorkspaceDiff → MemoryWorkspace → Result WorkspaceError MemoryWorkspace
unfolding decode_workspace_diff restore_changes
restore_sandbox_workspace of_base64 written ws =
    restore_changes (decode_workspace_diff of_base64 written).changes ws
