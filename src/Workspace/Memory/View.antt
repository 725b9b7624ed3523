-- ===== src/Workspace/Memory/View.antt =====
-- src/workspace/memory-workspace.ts: what `MemoryWorkspace` answers about its paths. The decoder of
-- the runtime is the parameter `decode`.
pub mod Reads
pub mod Writes
pub mod Refinement
use synth_agent_runtime.Prelude.{
  Bool, Option, [], any, if◌then◌else◌, includes, keys, length, list_eq, lookup, nat_eq, none, not,
  option_eq, pair_eq, some, string_eq, suc, zero, ℕ, ◌&&◌, ◌==◌, ◌||◌,
}
use synth_agent_runtime.Workspace.Snapshot.{Bytes, Text}
use synth_agent_runtime.Workspace.Paths.{normal_parts, normalize_relative}
use synth_agent_runtime.Workspace.Links.{
  SymlinkTargetResolution, cycle, escapes, resolve_link_target, resolve_symlink_target, resolved,
  too_deep,
}
use synth_agent_runtime.Workspace.Memory.{
  MemoryWorkspace, SourceKind, TreeSource, directory, file, is_under, link_at, symlink,
}

unfoldable pub is_deleted : MemoryWorkspace → Text → Bool
unfolding is_under
is_deleted ws p =
    includes p ws.deleted || any (λ gone. not (gone == []) && is_under p gone) ws.deleted

module _ (decode : Bytes → Text) where
  -- `remaining` counts the depths 0 to 16 down.
  unfoldable pub read_from_source : TreeSource → ℕ → Text → Option Bytes
  unfolding resolve_link_target
  read_from_source source zero p = none
  read_from_source source (suc remaining) p = elim (source.stat p) [
    | none ↦ none
    | some info ↦ elim info.kind [
      | file ↦ some (source.read_file p)
      | symlink ↦ elim (resolve_link_target p (decode (source.read_file p))) [
        | none ↦ none
        | some target ↦ read_from_source source remaining target
      ]
      | directory ↦ none
    ]
  ]

  abbrev pub source_depths : ℕ
  source_depths = 17

  unfoldable pub read_source : MemoryWorkspace → Text → Option Bytes
  unfolding read_from_source
  read_source ws p = elim ws.source [
    | none ↦ none
    | some source ↦ read_from_source source source_depths p
  ]

  -- `resolution.ok ? this.read(resolution.resolved) : undefined`
  abbrev pub read_resolved : (Text → Option Bytes) → SymlinkTargetResolution → Option Bytes
  read_resolved again (resolved path) = again path
  read_resolved again (escapes path target) = none
  read_resolved again (cycle path) = none
  read_resolved again (too_deep path) = none

  abbrev pub read_link_or_source :
      (Text → Option Bytes) → MemoryWorkspace → Text → Option Text → Option Bytes
  read_link_or_source again ws p none = read_source ws p
  read_link_or_source again ws p (some link) =
      read_resolved again (resolve_symlink_target (link_at ws) p link none)

  abbrev pub read_over :
      (Text → Option Bytes) → MemoryWorkspace → Text → Option Bytes → Option Bytes
  read_over again ws p (some bytes) = some bytes
  read_over again ws p none =
      if is_deleted ws p then none else read_link_or_source again ws p (lookup p ws.links)

  -- `read` calls itself on the path that a link resolves to; the second argument bounds the calls, and
  -- the first is the answer of a call beyond the bound.
  unfoldable pub read_at : Option Bytes → ℕ → MemoryWorkspace → Text → Option Bytes
  unfolding normalize_relative is_deleted read_source resolve_symlink_target link_at
  read_at beyond zero ws path = beyond
  read_at beyond (suc calls) ws path =
      let p = normalize_relative path in
      read_over (read_at beyond calls ws) ws p (lookup p ws.overlay)

  unfoldable pub read : MemoryWorkspace → Text → Option Bytes
  unfolding read_at normal_parts
  read ws path = read_at none (suc (suc (length (normal_parts path)))) ws path

  unfoldable pub read_text : MemoryWorkspace → Text → Option Text
  unfolding read
  read_text ws path = elim (read ws path) [ none ↦ none | some bytes ↦ some (decode bytes) ]

abbrev pub source_kind : MemoryWorkspace → Text → Option SourceKind
source_kind ws p = elim ws.source [
  | none ↦ none
  | some source ↦ elim (source.stat p) [ none ↦ none | some info ↦ some info.kind ]
]

unfoldable pub stat : MemoryWorkspace → Text → Option SourceKind
unfolding normalize_relative is_under is_deleted
stat ws path =
    let p = normalize_relative path in
    if p == []
    then some directory
    else if not (lookup p ws.overlay == none)
    then some file
    else if not (lookup p ws.links == none)
    then some symlink
    else if any (λ key. is_under key p) (keys ws.overlay)
    then some directory
    else if includes p ws.dirs
    then some directory
    else if is_deleted ws p
    then none
    else source_kind ws p
