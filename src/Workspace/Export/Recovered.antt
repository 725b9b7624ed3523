-- ===== src/Workspace/Export/Recovered.antt =====
-- That an exported diff is recovered from the store.
use synth_agent_runtime.Prelude.{
  All, Bool, Result, String, ap, beq_refl, if_elim, length, list_eq, lookup, ltb, nat_eq, none, not,
  ok, option_eq, pair_eq, refl, some, string_eq, ℕ, ◌∙◌, ◌≡◌,
}
use synth_agent_runtime.Workspace.Snapshot.{Bytes, Text}
use synth_agent_runtime.Workspace.Memory.{MemoryWorkspace}
use synth_agent_runtime.Workspace.Diff.{
  EncodedWorkspaceDiff, WorkspaceDiff, decode_workspace_diff, diff, encode_workspace_diff,
}
use synth_agent_runtime.Workspace.Diff.Roundtrip.{IsKept, decode-encode_workspace_diff}
use synth_agent_runtime.Artifacts.Blobs.{BlobStore, File, digest_of, get, put}
use synth_agent_runtime.Artifacts.Blobs.Integrity.{IsFresh, IsHash, get-put, normalize_digest_of}
use synth_agent_runtime.Workspace.Export.{
  DiffArtifact, ExportError, diff_bytes, export_artifact, export_options,
}
use synth_agent_runtime.Workspace.Codec.{max_inline_snapshot_bytes}

-- The diff of a workspace with the revision of its source.
abbrev pub diff_of : (Bytes → Text) → MemoryWorkspace → WorkspaceDiff
diff_of decode ws = record {
  revision = elim ws.source [ none ↦ none | some source ↦ source.revision ];
  changes = diff decode ws;
}

module _ (sha256_hex : Bytes → Text) (decode : Bytes → Text) (to_base64 : Bytes → Text)
    (of_base64 : Text → Bytes) (stringify : EncodedWorkspaceDiff → Bytes)
    (parse : Bytes → EncodedWorkspaceDiff) where
  abbrev exported :
      MemoryWorkspace → BlobStore → Bool → String → ℕ → Result ExportError DiffArtifact × BlobStore
  exported ws store inline id now =
      export_artifact sha256_hex decode to_base64 stringify ws store inline id now

  abbrev bytes_of_diff : MemoryWorkspace → Bytes
  bytes_of_diff ws = diff_bytes decode to_base64 stringify ws

  same_digest :
      (a b : DiffArtifact)
      → ◌≡◌ {A = Result ExportError DiffArtifact} (ok a) (ok b)
      → b.ref.digest ≡ a.ref.digest
  same_digest a b e = let same : b ≡ a = cc in ap (λ r. r.ref.digest) same

  exported_digest :
      (ws : MemoryWorkspace) (store : BlobStore) (inline : Bool) (id : String) (now : ℕ)
      {artifact : DiffArtifact}
      → (exported ws store inline id now).0 ≡ ok artifact
      → artifact.ref.digest ≡ digest_of sha256_hex (bytes_of_diff ws)
  unfolding export_artifact put
  exported_digest ws store inline id now {artifact} e =
      if_elim (λ r. r ≡ ok artifact → artifact.ref.digest ≡ digest_of sha256_hex (bytes_of_diff ws))
        (not inline) _ _ (λ _ f. same_digest _ artifact f)
        (λ _ f.
          if_elim
            (λ r. r ≡ ok artifact → artifact.ref.digest ≡ digest_of sha256_hex (bytes_of_diff ws))
            (ltb max_inline_snapshot_bytes (length (bytes_of_diff ws))) _ _ (λ _ k. absurd (cc))
            (λ _ k. same_digest _ artifact k) f)
        e

  -- The bytes of an exported artifact are in the store under the digest that it refers to, and they
  -- parse and decode to the workspace's diff: when the hash is written in hexadecimal digits and the
  -- object that was there does not collide with the bytes, when `parse` reads the diff back from its
  -- bytes, and when each content of the diff is kept by base64.
  pub export_artifact_recovered :
      (ws : MemoryWorkspace) (store : BlobStore) (inline : Bool) (id : String) (now : ℕ)
      {artifact : DiffArtifact}
      → IsHash sha256_hex
      → ((file : File)
          → lookup (digest_of sha256_hex (bytes_of_diff ws)) store.objects ≡ some file
          → IsFresh sha256_hex file (bytes_of_diff ws))
      → parse (bytes_of_diff ws) ≡ encode_workspace_diff to_base64 (diff_of decode ws)
      → All (IsKept to_base64 of_base64) (diff decode ws)
      → (exported ws store inline id now).0 ≡ ok artifact
      → (bytes : Bytes) × (get sha256_hex (exported ws store inline id now).1 artifact.ref.digest
          ≡ ok bytes)
        × (decode_workspace_diff of_base64 (parse bytes) ≡ diff_of decode ws)
  unfolding export_artifact diff_bytes
  export_artifact_recovered ws store inline id now hash fresh inverse kept e = (
    bytes_of_diff ws,
    rw (exported_digest ws store inline id now e) (
        get-put sha256_hex store (bytes_of_diff ws) (export_options ws.id) now
          (digest_of sha256_hex (bytes_of_diff ws)) (digest_of sha256_hex (bytes_of_diff ws)) fresh
          (normalize_digest_of sha256_hex (bytes_of_diff ws) hash)
        ∙ rw (beq_refl (digest_of sha256_hex (bytes_of_diff ws))) refl),
    rw inverse (decode-encode_workspace_diff to_base64 of_base64 (diff_of decode ws) kept),
  )
