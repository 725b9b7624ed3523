-- ===== src/Execution/Synthetic.antt =====
-- src/execution/synthetic.ts: `SyntheticExecutor`, on the workspaces and the blob store of a world.
-- The decoder and the encoder of the runtime are `decode` and `encode`, `show` is the string of a
-- list of code units and `show_count` the decimal string of a number.
pub mod Frame
pub mod Reading
mod Tests
use synth_agent_runtime.Prelude.Int.{pos}
use synth_agent_runtime.Prelude.Json.{end, field, number, object, text}
use synth_agent_runtime.Prelude.{
  Bool, Map, Option, Result, String, [], any, delete, err, false, if◌then◌else◌, insert, list_eq,
  lookup, map, nat_eq, none, not, ok, option_eq, or_else, pair_eq, some, string_eq, true, ℕ, ◌&&◌,
  ◌==◌, ◌||◌,
}
use synth_agent_runtime.Workspace.Snapshot.{Bytes, Content, Text, snapshot, string}
use synth_agent_runtime.Workspace.Memory.{
  MemoryWorkspace, SourceKind, WorkspaceError, closed, delete_path, delete_root, directory, file,
  foreign_snapshot, path_escapes, symlink, symlink_root, symlink_to, write, write_root,
}
use synth_agent_runtime.Workspace.Memory.View.{read, stat}
use synth_agent_runtime.Artifacts.Blobs.{BlobRef, BlobStore}
use synth_agent_runtime.Execution.Effects.{
  file as file_output, ArtifactRef, Effect, EffectContext, EffectResult, Executor, Operation,
  failure, human_approval, names, other, process_exec, success, workflow_run, workspace_delete,
  workspace_export, workspace_list, workspace_read, workspace_replace, workspace_symlink,
  workspace_write,
}
use Prim.Native.String.{◌++◌ as ◌<>◌}
use synth_agent_runtime.Workspace.Memory.Listing.{list_dir}
use synth_agent_runtime.Execution.TextReplace.{TextReplaceResult, replace_in_text}
use synth_agent_runtime.Workspace.Paths.{ancestor_paths, escapes_workspace, normalize_relative}
use synth_agent_runtime.Workspace.Diff.{EncodedWorkspaceDiff}
use synth_agent_runtime.Workspace.Export.{
  DiffArtifact, ExportError, export_artifact, inline_artifact_too_large,
}

pub record World : Type 0 where
  pub workspaces : Map String MemoryWorkspace
  pub blob_store : Option BlobStore

abbrev pub workspace_not_found : String
workspace_not_found = "WORKSPACE_NOT_FOUND"

abbrev pub workspace_not_directory : String
workspace_not_directory = "WORKSPACE_NOT_DIRECTORY"

abbrev pub workspace_is_directory : String
workspace_is_directory = "WORKSPACE_IS_DIRECTORY"

abbrev pub workspace_path_escapes : String
workspace_path_escapes = "WORKSPACE_PATH_ESCAPES"

abbrev pub escalation_required : String
escalation_required = "ESCALATION_REQUIRED"

abbrev pub artifact_store_required : String
artifact_store_required = "ARTIFACT_STORE_REQUIRED"

-- `effect.kind.startsWith("workspace.")`
abbrev pub is_workspace : Operation → Bool
is_workspace (workspace_read path) = true
is_workspace (workspace_delete path) = true
is_workspace (workspace_write path content) = true
is_workspace (workspace_replace path old_text new_text) = true
is_workspace (workspace_symlink path target) = true
is_workspace (workspace_list path) = true
is_workspace workspace_export = true
is_workspace (process_exec command) = false
is_workspace (workflow_run name input) = false
is_workspace (human_approval prompt detail) = false

abbrev pub is_exec : Operation → Bool
is_exec (process_exec command) = true
is_exec operation = false

-- `"path" in effect && typeof effect.path === "string" ? effect.path : ""`
abbrev pub raw_path : Operation → Text
raw_path (workspace_read path) = path
raw_path (workspace_delete path) = path
raw_path (workspace_write path content) = path
raw_path (workspace_replace path old_text new_text) = path
raw_path (workspace_symlink path target) = path
raw_path (workspace_list path) = or_else path []
raw_path operation = []

unfoldable pub is_file_at : MemoryWorkspace → Text → Bool
unfolding stat
is_file_at ws path = elim (stat ws path) [
  | none ↦ false
  | some kind ↦ elim kind [ file ↦ true | directory ↦ false | symlink ↦ false ]
]

-- An ancestor of the path is a file.
unfoldable pub is_below_file : MemoryWorkspace → Text → Bool
unfolding is_file_at ancestor_paths
is_below_file ws p = not (p == []) && any (is_file_at ws) (ancestor_paths p)

-- The messages of the errors that `write`, `delete` and `symlink` throw.
abbrev pub thrown_message : (Text → String) → WorkspaceError → String
thrown_message show write_root = "Cannot write workspace root"
thrown_message show delete_root = "Cannot delete workspace root"
thrown_message show symlink_root = "Cannot create a symlink at the workspace root"
thrown_message show closed = "Workspace transaction already closed"
thrown_message show (path_escapes path) = workspace_path_escapes <> ":" <> show path
thrown_message show (foreign_snapshot id own) =
    "Workspace snapshot " <> id <> " does not belong to " <> own

abbrev pub Outcome : Type 0
Outcome = Result String EffectResult × MemoryWorkspace

module _ (decode : Bytes → Text) (encode : Text → Bytes) (show : Text → String)
    (show_count : ℕ → String) where
  -- `{ ok: false, error: workspaceError(code, path) }`
  abbrev pub workspace_failure : String → Text → EffectResult
  workspace_failure code path = failure (code <> ":" <> show path)

  abbrev pub refuse : String → Text → MemoryWorkspace → Outcome
  refuse code path ws = (ok (workspace_failure code path), ws)

  -- A call of the workspace that may throw, and then leaves it as it was.
  abbrev pub done : MemoryWorkspace → Result WorkspaceError MemoryWorkspace → Outcome
  done ws (ok next) = (ok success, next)
  done ws (err error) = (err (thrown_message show error), ws)

  unfoldable pub read_found : Text → MemoryWorkspace → Option SourceKind → Outcome
  unfolding read
  read_found p ws none = refuse workspace_not_found p ws
  read_found p ws (some directory) = refuse workspace_is_directory p ws
  read_found p ws (some file) =
      (ok (record success { output = file_output (read decode ws p) }), ws)
  read_found p ws (some symlink) =
      (ok (record success { output = file_output (read decode ws p) }), ws)

  unfoldable pub write_found : Text → Content → MemoryWorkspace → Option SourceKind → Outcome
  unfolding write
  write_found p content ws none = done ws (write encode p content ws)
  write_found p content ws (some directory) = refuse workspace_is_directory p ws
  write_found p content ws (some file) = done ws (write encode p content ws)
  write_found p content ws (some symlink) = done ws (write encode p content ws)

  -- The message that the executor makes of a refused replacement.
  abbrev pub occurs_message : ℕ → Text → String
  occurs_message count p =
      "old_text occurs "
      <> show_count count
      <> " times in "
      <> show p
      <> "; it must occur exactly once"

  unfoldable pub replaced : Text → MemoryWorkspace → TextReplaceResult → Outcome
  unfolding write
  replaced p ws result =
      if result.is_ok
      then done ws (write encode p (string (or_else result.content [])) ws)
      else (ok (failure (occurs_message result.occurrences p)), ws)

  -- `replaceInText` on what the path reads as; its own messages are not read
  abbrev pub replacement : Text → MemoryWorkspace → Text → Text → TextReplaceResult
  replacement p ws old_text new_text =
      replace_in_text [] (λ _. []) (decode (or_else (read decode ws p) [])) old_text new_text

  abbrev pub replace_content : Text → MemoryWorkspace → Text → Text → Outcome
  replace_content p ws old_text new_text = replaced p ws (replacement p ws old_text new_text)

  unfoldable pub replace_found : Text → Text → Text → MemoryWorkspace → Option SourceKind → Outcome
  unfolding read replaced replace_in_text
  replace_found p old_text new_text ws none = refuse workspace_not_found p ws
  replace_found p old_text new_text ws (some directory) = refuse workspace_is_directory p ws
  replace_found p old_text new_text ws (some file) = replace_content p ws old_text new_text
  replace_found p old_text new_text ws (some symlink) = replace_content p ws old_text new_text

  unfoldable pub delete_found : Text → MemoryWorkspace → Option SourceKind → Outcome
  unfolding delete_path
  delete_found p ws none = refuse workspace_not_found p ws
  delete_found p ws (some kind) = done ws (delete_path p ws)

  abbrev pub linked : Text → MemoryWorkspace → Result WorkspaceError MemoryWorkspace → Outcome
  linked p ws (ok next) = (ok success, next)
  linked p ws (err error) = refuse workspace_path_escapes p ws

  abbrev pub listing : Text → MemoryWorkspace → Outcome
  listing p ws = (ok (record success { output = names (list_dir ws p) }), ws)

  unfoldable pub list_found : Text → MemoryWorkspace → Option SourceKind → Outcome
  unfolding list_dir
  list_found p ws none = refuse workspace_not_found p ws
  list_found p ws (some directory) = listing p ws
  list_found p ws (some file) = refuse workspace_not_directory p ws
  list_found p ws (some symlink) = refuse workspace_not_directory p ws

  -- The switch on the kind, at the normal path; the export is apart, with its store.
  unfoldable pub perform : Operation → Text → MemoryWorkspace → Outcome
  unfolding stat read_found write_found replace_found delete_found list_found symlink_to
  perform (workspace_read path) p ws =
      if p == [] then refuse workspace_is_directory p ws else read_found p ws (stat ws p)
  perform (workspace_write path content) p ws =
      if p == [] then refuse workspace_is_directory p ws else write_found p content ws (stat ws p)
  perform (workspace_replace path old_text new_text) p ws =
      if p == []
      then refuse workspace_is_directory p ws
      else replace_found p old_text new_text ws (stat ws p)
  perform (workspace_delete path) p ws =
      if p == [] then refuse workspace_is_directory p ws else delete_found p ws (stat ws p)
  perform (workspace_symlink path target) p ws =
      if p == [] then refuse workspace_is_directory p ws else linked p ws (symlink_to p target ws)
  perform (workspace_list path) p ws =
      if p == [] then listing [] ws else list_found p ws (stat ws p)
  perform operation p ws = (ok (failure escalation_required), ws)

  module _ (sha256_hex : Bytes → Text) (to_base64 : Bytes → Text)
      (stringify : EncodedWorkspaceDiff → Bytes) (artifact_id : String) (now : ℕ) where
    -- The reference of a stored blob, as the result of an effect carries it.
    abbrev pub artifact_ref : BlobRef → ArtifactRef
    artifact_ref ref = record {
      digest = show ref.digest;
      size = ref.size;
      media_type = ref.media_type;
      mechanism = "blob-store";
      produced_by = ref.produced_by;
      produced_from = elim ref.produced_from [
        | none ↦ none
        | some digests ↦ some (map show digests)
      ];
    }

    abbrev pub exported_result : BlobRef → EffectResult
    exported_result ref = record success {
      artifact = some (artifact_ref ref);
      output = other (
          object
            (field "digest" (text (show ref.digest)) (field "size" (number (pos ref.size)) end)));
    }

    abbrev pub export_outcome : Result ExportError DiffArtifact → Result String EffectResult
    export_outcome (ok artifact) = ok (exported_result artifact.ref)
    export_outcome (err (inline_artifact_too_large size)) = err "INLINE_ARTIFACT_TOO_LARGE"

    unfoldable pub export_to :
        MemoryWorkspace → World → Option BlobStore → Result String EffectResult × World
    unfolding export_artifact
    export_to ws w none = (ok (failure artifact_store_required), w)
    export_to ws w (some store) =
        let r =
          export_artifact sha256_hex decode to_base64 stringify ws store false artifact_id now in
        (export_outcome r.0, record w { blob_store = some r.1 })

    -- The switch, in the world.
    unfoldable pub act :
        Operation → String → MemoryWorkspace → World → Result String EffectResult × World
    unfolding perform export_to normalize_relative
    act workspace_export id ws w = export_to ws w w.blob_store
    act operation id ws w =
        let r = perform operation (normalize_relative (raw_path operation)) ws in
        (r.0, record w { workspaces = insert id r.1 w.workspaces })

    unfoldable pub execute_in :
        Operation → String → World → Option MemoryWorkspace → Result String EffectResult × World
    unfolding escapes_workspace is_below_file act
    execute_in operation id w none = (ok (failure ("Unknown workspace " <> id)), w)
    execute_in operation id w (some ws) =
        if not (is_workspace operation)
        then (ok (failure escalation_required), w)
        else if escapes_workspace (raw_path operation)
        then (ok (workspace_failure workspace_path_escapes (raw_path operation)), w)
        else if is_below_file ws (normalize_relative (raw_path operation))
        then (
          ok (workspace_failure workspace_not_directory (normalize_relative (raw_path operation))),
          w,
        )
        else act operation id ws w

    unfoldable pub execute : Effect → EffectContext → World → Result String EffectResult × World
    unfolding execute_in
    execute effect context w =
        execute_in effect.operation context.workspace_id w
          (lookup context.workspace_id w.workspaces)

    abbrev pub synthetic_executor : Executor World
    synthetic_executor = record {
      id = "synthetic";
      fidelity = 0;
      resource_class_id = none;
      can_execute =
          λ effect context w. (ok (is_workspace effect.operation || is_exec effect.operation), w);
      execute = execute;
    }
