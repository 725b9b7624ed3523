-- ===== src/Workspace/Diff/Roundtrip.antt =====
-- What a diff keeps when it is encoded and decoded.
use synth_agent_runtime.Prelude.{
  All, List, Option, [], false, list_beq, list_eq, map, nat_eq, none, ok, option_eq, pair_eq, refl,
  some, string_eq, ◌==◌, ◌∷◌, ◌≡◌,
}
use synth_agent_runtime.Workspace.Snapshot.{Bytes, Text}
use synth_agent_runtime.Workspace.Memory.{MemoryWorkspace}
use synth_agent_runtime.Workspace.Diff.{
  WorkspaceChange, WorkspaceDiff, added, change_of, content_of, decode_change,
  decode_workspace_diff, encode_change, encode_workspace_diff, restore_change, restore_kind,
}

module _ (to_base64 : Bytes → Text) (of_base64 : Text → Bytes) where
  -- A content that is read back, and that is not written as an empty string.
  abbrev IsKeptContent : Option Bytes → Type 0
  IsKeptContent none = Unit
  IsKeptContent (some bytes) =
      ((to_base64 bytes == []) ≡ false) × (of_base64 (to_base64 bytes) ≡ bytes)

  abbrev pub IsKept : WorkspaceChange → Type 0
  IsKept change = IsKeptContent change.content

  content_of-written :
      (content : Option Bytes)
      → IsKeptContent content
      → content_of of_base64 (elim content [ none ↦ none | some bytes ↦ some (to_base64 bytes) ])
        ≡ content
  content_of-written none h = refl
  content_of-written (some bytes) h = rw (h.0, h.1) refl

  decode-encode_each :
      (changes : List WorkspaceChange)
      → All IsKept changes
      → map (decode_change of_base64) (map (encode_change to_base64) changes) ≡ changes
  decode-encode_each [] h = refl
  decode-encode_each (c ∷ changes) h =
      rw (content_of-written c.content h.0, decode-encode_each changes h.1) refl

  -- A diff that is encoded and decoded is the diff, when each content in it is read back and is not
  -- written as an empty string.
  pub decode-encode_workspace_diff :
      (d : WorkspaceDiff)
      → All IsKept d.changes
      → decode_workspace_diff of_base64 (encode_workspace_diff to_base64 d) ≡ d
  unfolding encode_workspace_diff decode_workspace_diff
  decode-encode_workspace_diff d h = rw (decode-encode_each d.changes h) refl

  -- The change that adds an empty file comes back without its content, when no bytes are written as
  -- an empty string, and restoring it leaves the workspace as it was.
  pub restore_change-empty_file :
      (path : Text) (ws : MemoryWorkspace)
      → to_base64 [] ≡ []
      → restore_change
          (decode_change of_base64 (encode_change to_base64 (change_of path added (some []))))
          ws
        ≡ ok ws
  unfolding restore_change restore_kind list_beq
  restore_change-empty_file path ws h = rw h refl
