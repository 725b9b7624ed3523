-- ===== src/Workspace/Diff/Tests.antt =====
-- The diff of a workspace over a source with one file and one directory.
use synth_agent_runtime.Prelude.{
  [], find, if◌then◌else◌, includes, join_with, list_beq, list_eq, lookup, nat_eq, none, option_eq,
  pair_eq, push_unit, refl, some, split_at, string_eq, ◌==◌, ◌∷◌, ◌≡◌,
}
use synth_agent_runtime.Workspace.Snapshot.{Bytes, Text}
use synth_agent_runtime.Workspace.Paths.{normalize_relative}
use synth_agent_runtime.Workspace.Memory.{
  MemoryWorkspace, SourceInfo, SourceKind, TreeSource, directory, file, new_workspace, remove,
}
use synth_agent_runtime.Workspace.Memory.View.{read}
use synth_agent_runtime.Workspace.Diff.Changes.{IsChange, IsChange-diff, a_file}
use synth_agent_runtime.Workspace.Diff.{base_of, diff}
use synth_agent_runtime.Workspace.Diff.Restore.{diff-remove_directory, is_of}

abbrev units : Bytes → Text
units bytes = bytes

abbrev info_of : Text → SourceKind → SourceInfo
info_of path kind = record { path = path; kind = kind; size = 1; mtime_ms = 0; object_id = none }

-- The file `a` and the directory `d`.
abbrev small_tree : TreeSource
small_tree = record {
  name = "memory";
  revision = none;
  stat = λ path.
      if path == 97 ∷ []
      then some (info_of path file)
      else if path == 100 ∷ []
      then some (info_of path directory)
      else none;
  list_dir = λ path. [];
  read_file = λ path. 1 ∷ [];
}

abbrev over_tree : MemoryWorkspace
over_tree = new_workspace "workspace" (some small_tree)

-- `a` is written.
abbrev with_a : MemoryWorkspace
with_a = record over_tree { overlay = ((97 ∷ []), (2 ∷ [])) ∷ []; changed = (97 ∷ []) ∷ [] }

diff-remove_directory_example :
    diff units (remove (100 ∷ []) (new_workspace "workspace" (some small_tree))) ≡ []
unfolding normalize_relative lookup base_of join_with split_at push_unit list_beq
diff-remove_directory_example =
    diff-remove_directory units "workspace" (some small_tree) (100 ∷ []) refl refl refl

IsChange-diff_example :
    IsChange
      (97 ∷ [])
      (includes (97 ∷ []) with_a.changed)
      (some (1 ∷ []))
      (read units with_a (97 ∷ []))
      (find (is_of (97 ∷ [])) (diff units with_a))
unfolding list_beq
IsChange-diff_example =
    IsChange-diff units with_a (97 ∷ []) (some (1 ∷ []))
      (a_file small_tree (info_of (97 ∷ []) file) refl refl refl refl)
