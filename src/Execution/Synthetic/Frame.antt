-- ===== src/Execution/Synthetic/Frame.antt =====
-- What an effect of the executor leaves as it was.
use synth_agent_runtime.Prelude.{
  Bool, Bool-cases, Map, Option, Result, String, [], ap, arith, err, false, if_elim, inl, inr,
  insert, list_eq, lookup, nat_eq, none, not, ok, option_eq, or_else, pair_eq, refl, some,
  string_eq, ℕ, ◌==◌, ◌∷◌, ◌≡◌,
}
use synth_agent_runtime.Workspace.Snapshot.{Bytes, Content, Text, string}
use synth_agent_runtime.Workspace.Memory.{
  MemoryWorkspace, SourceKind, WorkspaceError, delete_path, directory, file, symlink, symlink_to,
  write,
}
use synth_agent_runtime.Workspace.Memory.View.{stat}
use synth_agent_runtime.Execution.Effects.{
  Effect, EffectContext, EffectResult, Operation, human_approval, process_exec, workflow_run,
  workspace_delete, workspace_export, workspace_list, workspace_read, workspace_replace,
  workspace_symlink, workspace_write,
}
use synth_agent_runtime.Execution.TextReplace.{TextReplaceResult}
use synth_agent_runtime.Execution.Synthetic.{
  Outcome, World, act, delete_found, done, execute, execute_in, export_to, is_below_file,
  is_workspace, linked, list_found, perform, raw_path, read_found, replace_found, replaced,
  replacement, write_found,
}
use synth_agent_runtime.Workspace.Paths.{escapes_workspace, normalize_relative}
use synth_agent_runtime.Workspace.Diff.{EncodedWorkspaceDiff}
use synth_agent_runtime.Workspace.Export.{export_artifact}
use synth_agent_runtime.Artifacts.Blobs.{BlobStore}

-- The executor returned a result, and it is a success.
abbrev pub succeeded : Result String EffectResult → Bool
succeeded (ok result) = result.is_ok
succeeded (err message) = false

-- A key that is set to the value it has changes nothing.
insert_same :
    {V : Type 0} (k : String) (v : V) (m : Map String V) → lookup k m ≡ some v → insert k v m ≡ m
unfolding lookup insert
insert_same k v [] h = absurd (cc)
insert_same k v ((j, w) ∷ m) h = elim (Bool-cases (j == k)) [
  | inl e ↦ let same : w ≡ v = ground arith in rw (e, same) refl
  | inr e ↦ rw e (ap (λ r. (j, w) ∷ r) (insert_same k v m (rw e at h)))
]

module _ (decode : Bytes → Text) (encode : Text → Bytes) (show : Text → String)
    (show_count : ℕ → String) where
  -- An outcome that is no success leaves the workspace as it was.
  abbrev Keeps : MemoryWorkspace → Outcome → Type 0
  Keeps ws r = succeeded r.0 ≡ false → r.1 ≡ ws

  Keeps-done :
      (ws : MemoryWorkspace) (r : Result WorkspaceError MemoryWorkspace)
      → Keeps ws (done decode encode show show_count ws r)
  Keeps-done ws (ok next) h = absurd (ground arith)
  Keeps-done ws (err error) h = refl

  Keeps-replaced :
      (p : Text) (ws : MemoryWorkspace) (result : TextReplaceResult)
      → Keeps ws (replaced decode encode show show_count p ws result)
  unfolding replaced
  Keeps-replaced p ws result =
      if_elim (Keeps ws) result.is_ok _ _
        (λ _. Keeps-done ws (write encode p (string (or_else result.content [])) ws)) (λ _ _. refl)

  Keeps-linked :
      (p : Text) (ws : MemoryWorkspace) (r : Result WorkspaceError MemoryWorkspace)
      → Keeps ws (linked decode encode show show_count p ws r)
  Keeps-linked p ws (ok next) h = absurd (ground arith)
  Keeps-linked p ws (err error) h = refl

  Keeps-write_found :
      (p : Text) (content : Content) (ws : MemoryWorkspace) (found : Option SourceKind)
      → Keeps ws (write_found decode encode show show_count p content ws found)
  unfolding write_found
  Keeps-write_found p content ws none = Keeps-done ws (write encode p content ws)
  Keeps-write_found p content ws (some directory) = λ _. refl
  Keeps-write_found p content ws (some file) = Keeps-done ws (write encode p content ws)
  Keeps-write_found p content ws (some symlink) = Keeps-done ws (write encode p content ws)

  Keeps-replace_found :
      (p old_text new_text : Text) (ws : MemoryWorkspace) (found : Option SourceKind)
      → Keeps ws (replace_found decode encode show show_count p old_text new_text ws found)
  unfolding replace_found
  Keeps-replace_found p old_text new_text ws none = λ _. refl
  Keeps-replace_found p old_text new_text ws (some directory) = λ _. refl
  Keeps-replace_found p old_text new_text ws (some file) =
      Keeps-replaced p ws (replacement decode encode show show_count p ws old_text new_text)
  Keeps-replace_found p old_text new_text ws (some symlink) =
      Keeps-replaced p ws (replacement decode encode show show_count p ws old_text new_text)

  Keeps-read_found :
      (p : Text) (ws : MemoryWorkspace) (found : Option SourceKind)
      → (read_found decode encode show show_count p ws found).1 ≡ ws
  unfolding read_found
  Keeps-read_found p ws none = refl
  Keeps-read_found p ws (some directory) = refl
  Keeps-read_found p ws (some file) = refl
  Keeps-read_found p ws (some symlink) = refl

  Keeps-list_found :
      (p : Text) (ws : MemoryWorkspace) (found : Option SourceKind)
      → (list_found decode encode show show_count p ws found).1 ≡ ws
  unfolding list_found
  Keeps-list_found p ws none = refl
  Keeps-list_found p ws (some directory) = refl
  Keeps-list_found p ws (some file) = refl
  Keeps-list_found p ws (some symlink) = refl

  Keeps-delete_found :
      (p : Text) (ws : MemoryWorkspace) (found : Option SourceKind)
      → Keeps ws (delete_found decode encode show show_count p ws found)
  unfolding delete_found
  Keeps-delete_found p ws none = λ _. refl
  Keeps-delete_found p ws (some kind) = Keeps-done ws (delete_path p ws)

  Keeps-perform :
      (operation : Operation) (p : Text) (ws : MemoryWorkspace)
      → Keeps ws (perform decode encode show show_count operation p ws)
  unfolding perform
  Keeps-perform (workspace_read path) p ws =
      if_elim (Keeps ws) (p == []) _ _ (λ _ _. refl) (λ _ _. Keeps-read_found p ws (stat ws p))
  Keeps-perform (workspace_write path content) p ws =
      if_elim (Keeps ws) (p == []) _ _ (λ _ _. refl)
        (λ _. Keeps-write_found p content ws (stat ws p))
  Keeps-perform (workspace_replace path old_text new_text) p ws =
      if_elim (Keeps ws) (p == []) _ _ (λ _ _. refl)
        (λ _. Keeps-replace_found p old_text new_text ws (stat ws p))
  Keeps-perform (workspace_delete path) p ws =
      if_elim (Keeps ws) (p == []) _ _ (λ _ _. refl) (λ _. Keeps-delete_found p ws (stat ws p))
  Keeps-perform (workspace_symlink path target) p ws =
      if_elim (Keeps ws) (p == []) _ _ (λ _ _. refl)
        (λ _. Keeps-linked p ws (symlink_to p target ws))
  Keeps-perform (workspace_list path) p ws =
      if_elim (Keeps ws) (p == []) _ _ (λ _ _. refl) (λ _ _. Keeps-list_found p ws (stat ws p))
  Keeps-perform workspace_export p ws = λ _. refl
  Keeps-perform (process_exec command) p ws = λ _. refl
  Keeps-perform (workflow_run name input) p ws = λ _. refl
  Keeps-perform (human_approval prompt detail) p ws = λ _. refl

  module _ (sha256_hex : Bytes → Text) (to_base64 : Bytes → Text)
      (stringify : EncodedWorkspaceDiff → Bytes) (artifact_id : String) (now : ℕ) where
    abbrev KeepsWorld : World → Result String EffectResult × World → Type 0
    KeepsWorld w r = succeeded r.0 ≡ false → r.1 ≡ w

    abbrev acts : Operation → String → MemoryWorkspace → World → Result String EffectResult × World
    acts = act decode encode show show_count sha256_hex to_base64 stringify artifact_id now

    KeepsWorld-export_to :
        (ws : MemoryWorkspace) (w : World) (store : Option BlobStore)
        → KeepsWorld w (
            export_to decode encode show show_count sha256_hex to_base64 stringify artifact_id now
              ws w store)
    unfolding export_to export_artifact
    KeepsWorld-export_to ws w none h = refl
    KeepsWorld-export_to ws w (some store) h = absurd (ground arith)

    KeepsWorld-store :
        (operation : Operation) (id : String) (ws : MemoryWorkspace) (w : World)
        → lookup id w.workspaces ≡ some ws
        → KeepsWorld w (
          (perform decode encode show show_count operation
              (normalize_relative (raw_path operation))
              ws).0,
          record w {
            workspaces =
                insert id
                  (perform decode encode show show_count operation
                    (normalize_relative (raw_path operation))
                    ws).1
                  w.workspaces;
          },
        )
    KeepsWorld-store operation id ws w there h =
        let same = Keeps-perform operation (normalize_relative (raw_path operation)) ws h in
        rw (same, insert_same id ws w.workspaces there) refl

    KeepsWorld-act :
        (operation : Operation) (id : String) (ws : MemoryWorkspace) (w : World)
        → lookup id w.workspaces ≡ some ws
        → KeepsWorld w (acts operation id ws w)
    unfolding act
    KeepsWorld-act workspace_export id ws w there = KeepsWorld-export_to ws w w.blob_store
    KeepsWorld-act (workspace_read path) id ws w there =
        KeepsWorld-store (workspace_read path) id ws w there
    KeepsWorld-act (workspace_write path content) id ws w there =
        KeepsWorld-store (workspace_write path content) id ws w there
    KeepsWorld-act (workspace_replace path old_text new_text) id ws w there =
        KeepsWorld-store (workspace_replace path old_text new_text) id ws w there
    KeepsWorld-act (workspace_delete path) id ws w there =
        KeepsWorld-store (workspace_delete path) id ws w there
    KeepsWorld-act (workspace_symlink path target) id ws w there =
        KeepsWorld-store (workspace_symlink path target) id ws w there
    KeepsWorld-act (workspace_list path) id ws w there =
        KeepsWorld-store (workspace_list path) id ws w there
    KeepsWorld-act (process_exec command) id ws w there =
        KeepsWorld-store (process_exec command) id ws w there
    KeepsWorld-act (workflow_run name input) id ws w there =
        KeepsWorld-store (workflow_run name input) id ws w there
    KeepsWorld-act (human_approval prompt detail) id ws w there =
        KeepsWorld-store (human_approval prompt detail) id ws w there

    KeepsWorld-execute_in :
        (operation : Operation) (id : String) (w : World) (found : Option MemoryWorkspace)
        → lookup id w.workspaces ≡ found
        → KeepsWorld w (
            execute_in decode encode show show_count sha256_hex to_base64 stringify artifact_id now
              operation id w found)
    unfolding execute_in
    KeepsWorld-execute_in operation id w none there = λ _. refl
    KeepsWorld-execute_in operation id w (some ws) there =
        if_elim (KeepsWorld w) (not (is_workspace operation)) _ _ (λ _ _. refl)
          (λ _.
            if_elim (KeepsWorld w) (escapes_workspace (raw_path operation)) _ _ (λ _ _. refl)
              (λ _.
                if_elim (KeepsWorld w) (is_below_file ws (normalize_relative (raw_path operation)))
                  _ _ (λ _ _. refl) (λ _. KeepsWorld-act operation id ws w there)))

    -- An effect that is refused or fails, for whatever reason, changes nothing: neither a workspace nor
    -- the blob store.
    pub execute_refused :
        (effect : Effect) (context : EffectContext) (w : World)
        → succeeded
            (execute decode encode show show_count sha256_hex to_base64 stringify artifact_id now
              effect context w).0
          ≡ false
        → (execute decode encode show show_count sha256_hex to_base64 stringify artifact_id now
            effect context w).1
          ≡ w
    unfolding execute
    execute_refused effect context w =
        KeepsWorld-execute_in effect.operation context.workspace_id w
          (lookup context.workspace_id w.workspaces) refl
