-- ===== src/Workspace/Memory.antt =====
-- src/workspace/memory-workspace.ts: the state of `MemoryWorkspace` and the operations that change
-- it, and the `TreeSource` of src/workspace/source.ts that it lies over. The encoder of the runtime
-- is the parameter `encode`. An operation that throws leaves the workspace as it was.
pub mod View
pub mod Listing
pub mod Invariant
mod Tests
use synth_agent_runtime.Prelude.{
  Bool, List, Map, Option, Result, String, [], add, delete, erase, err, false, if◌then◌else◌,
  insert, keep, keys, list_eq, lookup, nat_eq, none, not, ok, option_eq, or_else, pair_eq, some,
  split_at, starts_with, string_eq, true, ℕ, ◌++◌, ◌==◌, ◌||◌, ◌∷◌,
}
use synth_agent_runtime.Workspace.Snapshot.{
  Bytes, Content, Text, WorkspaceRevision, WorkspaceSnapshot, string, uint8_array,
}
use synth_agent_runtime.Workspace.Paths.{escapes_workspace, normalize_relative, prefixes, slash}
use synth_agent_runtime.Workspace.Links.{
  SymlinkTargetResolution, cycle, escapes, resolve_symlink_target, resolved, too_deep,
}
use synth_agent_runtime.Workspace.Codec.{add_values}

pub data SourceKind : Type 0 where
  file directory symlink : SourceKind

pub record SourceInfo : Type 0 where
  pub path : Text
  pub kind : SourceKind
  pub size : ℕ
  pub mtime_ms : ℕ
  pub object_id : Option String

-- What the source answers; it does not change while a workspace lies over it.
pub record TreeSource : Type 0 where
  pub name : String
  pub revision : Option WorkspaceRevision
  pub stat : Text → Option SourceInfo
  pub list_dir : Text → List SourceInfo
  pub read_file : Text → Bytes

pub record MemoryWorkspace : Type 0 where
  pub id : String
  pub source : Option TreeSource
  pub overlay : Map Text Bytes
  pub links : Map Text Text
  pub deleted : List Text
  pub changed : List Text
  pub dirs : List Text

abbrev pub new_workspace : String → Option TreeSource → MemoryWorkspace
new_workspace id source = record {
  id = id;
  source = source;
  overlay = [];
  links = [];
  deleted = [];
  changed = [];
  dirs = [];
}

pub data WorkspaceError : Type 0 where
  write_root delete_root symlink_root closed : WorkspaceError
  path_escapes : Text → WorkspaceError
  foreign_snapshot : String → String → WorkspaceError

-- `q.startsWith(`${p}/`)`
unfoldable pub is_under : Text → Text → Bool
is_under q p = starts_with q (p ++ slash ∷ [])

unfoldable pub put_bytes : Text → Bytes → MemoryWorkspace → MemoryWorkspace
unfolding prefixes add_values
put_bytes p bytes ws = record ws {
  overlay = insert p bytes ws.overlay;
  deleted = delete p ws.deleted;
  changed = add p ws.changed;
  dirs = add_values ws.dirs (prefixes [] (split_at slash p));
}

module _ (encode : Text → Bytes) where
  abbrev pub bytes_of : Content → Bytes
  bytes_of (uint8_array bytes) = bytes
  bytes_of (string text) = encode text

  unfoldable pub write : Text → Content → MemoryWorkspace → Result WorkspaceError MemoryWorkspace
  unfolding normalize_relative put_bytes
  write path content ws =
      let p = normalize_relative path in
      if p == [] then err write_root else ok (put_bytes p (bytes_of content) ws)

-- `(candidate) => this.#links.get(normalizeRelative(candidate))`
unfoldable pub link_at : MemoryWorkspace → Text → Option Text
unfolding normalize_relative
link_at ws candidate = lookup (normalize_relative candidate) ws.links

-- `.ok`
abbrev pub is_resolved : SymlinkTargetResolution → Bool
is_resolved (resolved path) = true
is_resolved (escapes path target) = false
is_resolved (cycle path) = false
is_resolved (too_deep path) = false

abbrev pub put_link : Text → Text → MemoryWorkspace → MemoryWorkspace
put_link p target ws = record ws {
  links = insert p target ws.links;
  deleted = delete p ws.deleted;
  changed = add p ws.changed;
}

unfoldable pub symlink_to : Text → Text → MemoryWorkspace → Result WorkspaceError MemoryWorkspace
unfolding normalize_relative escapes_workspace resolve_symlink_target link_at
symlink_to path target ws =
    let p = normalize_relative path in
    if p == []
    then err symlink_root
    else if escapes_workspace p
    then err (path_escapes p)
    else if is_resolved (resolve_symlink_target (link_at ws) p target none)
    then ok (put_link p target ws)
    else err (path_escapes p)

abbrev pub drop_path : Text → MemoryWorkspace → MemoryWorkspace
drop_path p ws = record ws {
  overlay = erase p ws.overlay;
  deleted = add p ws.deleted;
  changed = add p ws.changed;
}

-- The loop that drops the overlaid paths under a deleted one.
unfoldable pub drop_each : List Text → MemoryWorkspace → MemoryWorkspace
drop_each [] ws = ws
drop_each (key ∷ rest) ws = drop_each rest (drop_path key ws)

abbrev pub is_within : Text → Text → Bool
is_within p q = (q == p) || is_under q p

abbrev pub drop_dirs_and_links : Text → MemoryWorkspace → MemoryWorkspace
drop_dirs_and_links p ws = record ws {
  dirs = keep (λ dir. not (is_within p dir)) ws.dirs;
  links = keep (λ link. not (is_within p link.0)) ws.links;
}

unfoldable pub remove : Text → MemoryWorkspace → MemoryWorkspace
unfolding is_under drop_each
remove p ws =
    let dropped = drop_path p ws in
    drop_dirs_and_links p (drop_each (keep (λ key. is_under key p) (keys dropped.overlay)) dropped)

unfoldable pub delete_path : Text → MemoryWorkspace → Result WorkspaceError MemoryWorkspace
unfolding normalize_relative remove
delete_path path ws =
    let p = normalize_relative path in if p == [] then err delete_root else ok (remove p ws)

unfoldable pub snapshot_of : MemoryWorkspace → WorkspaceSnapshot
snapshot_of ws = record {
  id = ws.id;
  revision = elim ws.source [ none ↦ none | some source ↦ source.revision ];
  overlay = ws.overlay;
  links = some ws.links;
  deleted = ws.deleted;
  changed = ws.changed;
}

unfoldable pub restore : WorkspaceSnapshot → MemoryWorkspace → Result WorkspaceError MemoryWorkspace
restore s ws =
    if s.id == ws.id
    then ok (record ws {
      overlay = s.overlay;
      links = or_else s.links [];
      deleted = s.deleted;
      changed = s.changed;
    })
    else err (foreign_snapshot s.id ws.id)

-- `child_id` is the id that the child is made with.
unfoldable pub fork : String → MemoryWorkspace → MemoryWorkspace
fork child_id ws = record (new_workspace child_id ws.source) {
  overlay = ws.overlay;
  links = ws.links;
  deleted = ws.deleted;
  changed = ws.changed;
}
