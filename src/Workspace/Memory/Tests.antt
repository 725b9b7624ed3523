-- ===== src/Workspace/Memory/Tests.antt =====
-- A workspace over a source with one file.
use synth_agent_runtime.Prelude.{
  List, [], if◌then◌else◌, join_with, length, list_beq, list_eq, lookup, nat_eq, none, ok,
  option_eq, pair_eq, push_unit, refl, some, split_at, starts_with, string_eq, suc, ℕ, ◌+◌, ◌==◌,
  ◌∷◌, ◌≡◌,
}
use synth_agent_runtime.Workspace.Snapshot.{uint8_array}
use synth_agent_runtime.Workspace.Paths.{normal_parts, normalize_relative}
use synth_agent_runtime.Workspace.Memory.{
  MemoryWorkspace, SourceInfo, TreeSource, file, is_under, new_workspace, snapshot_of,
}
use synth_agent_runtime.Workspace.Memory.View.{read, read_at}
use synth_agent_runtime.Workspace.Memory.View.Refinement.{
  Change, apply_all, apply_all-put_files, deletes, put_files, writes,
}
use synth_agent_runtime.Workspace.Memory.Invariant.{
  Call, IsWellFormed, call_delete, call_restore, call_symlink, call_write, read_ends-run_calls,
  run_calls,
}

abbrev same_units : List ℕ → List ℕ
same_units units = units

-- The file `a`.
abbrev file_a : SourceInfo
file_a = record { path = 97 ∷ []; kind = file; size = 1; mtime_ms = 0; object_id = none }

abbrev one_file : TreeSource
one_file = record {
  name = "memory";
  revision = none;
  stat = λ path. if path == 97 ∷ [] then some file_a else none;
  list_dir = λ path. file_a ∷ [];
  read_file = λ path. 1 ∷ [];
}

-- `b/c` is written, `a` is deleted and written again.
abbrev some_changes : List Change
some_changes =
    writes (98 ∷ 47 ∷ 99 ∷ []) (uint8_array (2 ∷ []))
    ∷ deletes (97 ∷ [])
    ∷ writes (97 ∷ []) (uint8_array (3 ∷ []))
    ∷ []

apply_all-put_files_example :
    (last : MemoryWorkspace) × (apply_all same_units some_changes
        (new_workspace "workspace" (some one_file))
      ≡ ok last)
    × (read same_units last (97 ∷ [])
        ≡ put_files same_units some_changes
            (read same_units (new_workspace "workspace" (some one_file)))
            (97 ∷ []))
unfolding normalize_relative is_under lookup join_with split_at push_unit list_beq starts_with
apply_all-put_files_example =
    apply_all-put_files same_units same_units (97 ∷ []) refl some_changes
      (new_workspace "workspace" (some one_file)) ((refl, refl), (refl, ((refl, refl), tt))) refl

abbrev some_calls : List Call
some_calls =
    call_symlink (97 ∷ []) (98 ∷ [])
    ∷ call_write (98 ∷ []) (uint8_array (2 ∷ []))
    ∷ call_delete []
    ∷ call_restore (snapshot_of (new_workspace "workspace" none))
    ∷ call_symlink (97 ∷ []) (98 ∷ [])
    ∷ []

read_ends-run_calls_example :
    IsWellFormed (run_calls same_units some_calls (new_workspace "workspace" none))
    × (read_at same_units
          (some (7 ∷ []))
          (suc (suc (5 + length (normal_parts (97 ∷ [])))))
          (run_calls same_units some_calls (new_workspace "workspace" none))
          (97 ∷ [])
        ≡ read same_units
            (run_calls same_units some_calls (new_workspace "workspace" none))
            (97 ∷ []))
unfolding snapshot_of
read_ends-run_calls_example =
    read_ends-run_calls same_units same_units "workspace" none some_calls (some (7 ∷ [])) 5
      (97 ∷ []) (tt, (tt, (tt, ((tt, tt, tt, tt), (tt, tt)))))
