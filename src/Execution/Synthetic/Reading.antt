-- ===== src/Execution/Synthetic/Reading.antt =====
-- What an effect reads after another one wrote.
use synth_agent_runtime.Prelude.{
  Option, String, [], ap, arith, false, if_elim, list_eq, lookup, lookup-insert_self, nat_eq, none,
  ok, option_beq, option_eq, pair_eq, refl, some, string_eq, true, ℕ, ◌==◌, ◌≡◌,
}
use synth_agent_runtime.Workspace.Snapshot.{Bytes, Content, Text}
use synth_agent_runtime.Workspace.Paths.{normalize_relative}
use synth_agent_runtime.Workspace.Memory.{
  MemoryWorkspace, SourceKind, bytes_of, directory, file, put_bytes, symlink, write,
}
use synth_agent_runtime.Workspace.Memory.View.{read, stat}
use synth_agent_runtime.Workspace.Memory.View.Writes.{read_overlaid}
use synth_agent_runtime.Execution.Effects.{
  file as file_output, success, workspace_read, workspace_write,
}
use synth_agent_runtime.Execution.Synthetic.{Outcome, done, perform, read_found, write_found}
use synth_agent_runtime.Execution.Synthetic.Frame.{succeeded}

lookup-put_bytes :
    (p : Text) (bytes : Bytes) (ws : MemoryWorkspace)
    → lookup p (put_bytes p bytes ws).overlay ≡ some bytes
unfolding put_bytes
lookup-put_bytes p bytes ws = lookup-insert_self p bytes ws.overlay

stat_overlaid :
    (ws : MemoryWorkspace) (p : Text) {bytes : Bytes}
    → normalize_relative p ≡ p
    → (p == []) ≡ false
    → lookup p ws.overlay ≡ some bytes
    → stat ws p ≡ some SourceKind.file
unfolding stat option_beq
stat_overlaid ws p n root there = rw (n, root, there) refl

module _ (decode : Bytes → Text) (encode : Text → Bytes) (show : Text → String)
    (show_count : ℕ → String) where
  -- The read that follows gives the content.
  abbrev ReadsContent : Text → Content → Outcome → Type 0
  ReadsContent p content r =
      succeeded r.0 ≡ true
      → perform decode encode show show_count (workspace_read p) p r.1
        ≡ (ok (record success { output = file_output (some (bytes_of encode content)) }), r.1)

  perform-read-file :
      (p : Text) (bytes : Bytes) (u : MemoryWorkspace)
      → (p == []) ≡ false
      → stat u p ≡ some SourceKind.file
      → read decode u p ≡ some bytes
      → perform decode encode show show_count (workspace_read p) p u
        ≡ (ok (record success { output = file_output (some bytes) }), u)
  unfolding perform read_found
  perform-read-file p bytes u root kind reads =
      rw (root, kind) (ap (λ o. (ok (record success { output = file_output o }), u)) reads)

  ReadsContent-put_bytes :
      (p : Text) (content : Content) (ws : MemoryWorkspace)
      → normalize_relative p ≡ p
      → (p == []) ≡ false
      → ReadsContent p content (ok success, put_bytes p (bytes_of encode content) ws)
  ReadsContent-put_bytes p content ws n root h =
      let there = lookup-put_bytes p (bytes_of encode content) ws in
      perform-read-file p (bytes_of encode content) (put_bytes p (bytes_of encode content) ws) root
        (stat_overlaid (put_bytes p (bytes_of encode content) ws) p n root there)
        (read_overlaid decode (put_bytes p (bytes_of encode content) ws) p (rw n there))

  ReadsContent-done :
      (p : Text) (content : Content) (ws : MemoryWorkspace)
      → normalize_relative p ≡ p
      → (p == []) ≡ false
      → ReadsContent p content (done decode encode show show_count ws (write encode p content ws))
  unfolding write
  ReadsContent-done p content ws n root = rw (n, root) (ReadsContent-put_bytes p content ws n root)

  ReadsContent-write_found :
      (p : Text) (content : Content) (ws : MemoryWorkspace) (found : Option SourceKind)
      → normalize_relative p ≡ p
      → (p == []) ≡ false
      → ReadsContent p content (write_found decode encode show show_count p content ws found)
  unfolding write_found
  ReadsContent-write_found p content ws none n root = ReadsContent-done p content ws n root
  ReadsContent-write_found p content ws (some directory) n root = λ h. absurd (ground arith)
  ReadsContent-write_found p content ws (some file) n root = ReadsContent-done p content ws n root
  ReadsContent-write_found p content ws (some symlink) n root =
      ReadsContent-done p content ws n root

  -- A read of a normal path, in the workspace that a write of it which succeeded leaves, succeeds and
  -- gives the content that was written.
  pub perform_read-write :
      (path p : Text) (content : Content) (ws : MemoryWorkspace)
      → normalize_relative p ≡ p
      → succeeded (perform decode encode show show_count (workspace_write path content) p ws).0
        ≡ true
      → perform decode encode show show_count
          (workspace_read p)
          p
          (perform decode encode show show_count (workspace_write path content) p ws).1
        ≡ (
          ok (record success { output = file_output (some (bytes_of encode content)) }),
          (perform decode encode show show_count (workspace_write path content) p ws).1,
        )
  unfolding perform
  perform_read-write path p content ws n =
      if_elim (ReadsContent p content) (p == []) _ _ (λ _ h. absurd (ground arith))
        (λ root. ReadsContent-write_found p content ws (stat ws p) n root)
