-- ===== src/Workspace/Export/Tests.antt =====
-- A workspace that is exported to an empty store.
use synth_agent_runtime.Prelude.{
  List, [], false, join_with, list_beq, list_eq, lookup, nat_eq, none, ok, option_eq, pair_eq,
  push_unit, refl, some, split_at, string_eq, suc, zero, ℕ, ◌∷◌, ◌≡◌,
}
use synth_agent_runtime.Workspace.Snapshot.{Bytes, Text}
use synth_agent_runtime.Workspace.Memory.{MemoryWorkspace, new_workspace}
use synth_agent_runtime.Workspace.Diff.{
  EncodedWorkspaceDiff, added, decode_workspace_diff, diff, encode_workspace_diff,
}
use synth_agent_runtime.Artifacts.Blobs.{BlobStore, all_hex, digest_of, get}
use synth_agent_runtime.Workspace.Export.{diff_bytes, export_artifact}
use synth_agent_runtime.Workspace.Export.Recovered.{diff_of, export_artifact_recovered}

abbrev repeated : ℕ → ℕ → Text
repeated zero c = []
repeated (suc n) c = c ∷ repeated n c

abbrev zeros : Bytes → Text
zeros bytes = repeated 64 48

abbrev units : List ℕ → List ℕ
units text = text

-- The file `a` was written.
abbrev with_a : MemoryWorkspace
with_a = record (new_workspace "workspace" none) {
  overlay = ((97 ∷ []), (2 ∷ [])) ∷ [];
  changed = (97 ∷ []) ∷ [];
}

abbrev written_diff : EncodedWorkspaceDiff
written_diff = record {
  revision = none;
  changes = record { path = 97 ∷ []; kind = added; content_base64 = some (2 ∷ []) } ∷ [];
}

abbrev as_json : EncodedWorkspaceDiff → Bytes
as_json d = 123 ∷ []

abbrev of_json : Bytes → EncodedWorkspaceDiff
of_json bytes = written_diff

abbrev empty_store : BlobStore
empty_store = record { objects = []; sidecars = [] }

export_artifact_recovered_example :
    (bytes : Bytes) × (get zeros
        (export_artifact zeros units units as_json with_a empty_store false "artifact" 7).1
        (digest_of zeros (diff_bytes units units as_json with_a))
      ≡ ok bytes)
    × (decode_workspace_diff units (of_json bytes) ≡ diff_of units with_a)
unfolding lookup all_hex encode_workspace_diff diff list_beq join_with split_at push_unit
    export_artifact
export_artifact_recovered_example =
    export_artifact_recovered zeros units units units as_json of_json with_a empty_store false
      "artifact" 7 (λ _. refl) (λ _ h. absurd (cc)) refl ((refl, refl), tt) refl
