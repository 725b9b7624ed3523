-- ===== src/Workspace/Export.antt =====
-- src/workspace/memory-workspace.ts: `exportArtifact`, onto the blob store of
-- src/artifacts/blob-store.ts. `stringify` is `encoder.encode(JSON.stringify(body))`, `show` the string
-- of a list of code units, and the id and the clock are the arguments `id` and `now`.
pub mod Recovered
mod Tests
use synth_agent_runtime.Prelude.{
  Bool, Option, Result, String, err, if◌then◌else◌, length, list_eq, ltb, nat_eq, none, not, ok,
  option_eq, pair_eq, some, string_eq, ℕ,
}
use synth_agent_runtime.Workspace.Snapshot.{Bytes, Text}
use synth_agent_runtime.Workspace.Memory.{MemoryWorkspace}
use synth_agent_runtime.Workspace.Diff.{EncodedWorkspaceDiff, diff, encode_workspace_diff}
use synth_agent_runtime.Workspace.Codec.{max_inline_snapshot_bytes}
use synth_agent_runtime.Artifacts.Blobs.{BlobRef, BlobStore, PutBlobOptions, put}

pub record InlineArtifact : Type 0 where
  pub media_type : String
  pub data_base64 : Text
  pub size : ℕ

pub record DiffArtifact : Type 0 where
  pub id : String
  pub workspace_id : String
  pub created_at : ℕ
  pub ref : BlobRef
  pub inline : Option InlineArtifact

pub data ExportError : Type 0 where
  inline_artifact_too_large : ℕ → ExportError

abbrev pub workspace_diff_media_type : String
workspace_diff_media_type = "application/vnd.synth.workspace-diff+json"

abbrev pub export_options : String → PutBlobOptions
export_options id = record {
  media_type = some workspace_diff_media_type;
  produced_by = some id;
  produced_from = none;
  tenant_id = none;
}

abbrev pub artifact_of :
    MemoryWorkspace → String → ℕ → BlobRef → Option InlineArtifact → DiffArtifact
artifact_of ws id now ref inline = record {
  id = id;
  workspace_id = ws.id;
  created_at = now;
  ref = ref;
  inline = inline;
}

abbrev pub inline_of : (Bytes → Text) → Bytes → InlineArtifact
inline_of to_base64 bytes = record {
  media_type = workspace_diff_media_type;
  data_base64 = to_base64 bytes;
  size = length bytes;
}

module _ (decode : Bytes → Text) (to_base64 : Bytes → Text)
    (stringify : EncodedWorkspaceDiff → Bytes) where
  unfoldable pub diff_bytes : MemoryWorkspace → Bytes
  unfolding diff encode_workspace_diff
  diff_bytes ws = stringify (
      encode_workspace_diff to_base64 (record {
        revision = elim ws.source [ none ↦ none | some source ↦ source.revision ];
        changes = diff decode ws;
      }))

module _ (sha256_hex : Bytes → Text) (decode : Bytes → Text) (to_base64 : Bytes → Text)
    (stringify : EncodedWorkspaceDiff → Bytes) where
  -- The blob is stored before an inline copy is refused.
  unfoldable pub export_artifact :
      MemoryWorkspace → BlobStore → Bool → String → ℕ → Result ExportError DiffArtifact × BlobStore
  unfolding diff_bytes put
  export_artifact ws store inline id now =
      let bytes = diff_bytes decode to_base64 stringify ws in
      let stored = put sha256_hex store bytes (export_options ws.id) now in
      (
        if not inline
            then ok (artifact_of ws id now stored.0 none)
            else if ltb max_inline_snapshot_bytes (length bytes)
            then err (inline_artifact_too_large (length bytes))
            else ok (artifact_of ws id now stored.0 (some (inline_of to_base64 bytes))),
        stored.1,
      )
