-- ===== src/Artifacts/Blobs/Tests.antt =====
-- The blob store's theorems with a hash that tells an empty content from the others.
use synth_agent_runtime.Prelude.{
  [], if◌then◌else◌, list_beq, list_eq, lookup, nat_eq, none, ok, option_eq, pair_eq, refl,
  string_eq, suc, zero, ℕ, ◌==◌, ◌∷◌, ◌≡◌,
}
use synth_agent_runtime.Workspace.Snapshot.{Bytes, Text}
use synth_agent_runtime.Artifacts.Blobs.{
  BlobStore, File, PutBlobOptions, all_hex, digest_of, get, normalize_digest, put,
}
use synth_agent_runtime.Artifacts.Blobs.Integrity.{get-put}

abbrev repeated : ℕ → ℕ → Text
repeated zero c = []
repeated (suc n) c = c ∷ repeated n c

abbrev small_hash : Bytes → Text
small_hash [] = repeated 64 48
small_hash (b ∷ bytes) = repeated 64 49

abbrev content : Bytes
content = 104 ∷ 105 ∷ []

abbrev digest : Text
digest = digest_of small_hash content

abbrev file : File
file = record { content = content; mtime_ms = 5 }

abbrev store : BlobStore
store = record { objects = (digest, file) ∷ []; sidecars = [] }

abbrev options : PutBlobOptions
options = record { media_type = none; produced_by = none; produced_from = none; tenant_id = none }

get-put_example :
    get small_hash (put small_hash store [] options 9).1 digest
    ≡ (if digest_of small_hash [] == digest then ok [] else get small_hash store digest)
unfolding normalize_digest all_hex lookup list_beq
get-put_example = get-put small_hash store [] options 9 digest digest (λ f h. absurd (cc)) refl
