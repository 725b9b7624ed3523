-- ===== src/Artifacts/Guard/Tests.antt =====
-- The guarded store's theorems for two tenants, with a hash that tells an empty content from the
-- others.
use synth_agent_runtime.Prelude.{
  List, [], err, list_beq, list_eq, lookup, nat_eq, none, ok, option_eq, pair_eq, refl, some,
  string_eq, suc, true, zero, ℕ, ◌∷◌, ◌≡◌,
}
use synth_agent_runtime.Workspace.Snapshot.{Bytes, Text}
use synth_agent_runtime.Artifacts.Blobs.{
  File, PutBlobOptions, Sidecar, all_hex, digest_of, non_empty, normalize_digest, put, ref_of,
  sidecar_of, stat, stat_file, stat_normal, truthy,
}
use synth_agent_runtime.Artifacts.Blobs.Integrity.{IsHash}
use synth_agent_runtime.Artifacts.Guard.{
  BlobPrincipal, Guarded, blob_forbidden, get_guarded, put_guarded, read, stamp, stat_guarded,
  tenant_blob_policy, tenant_of, write_blob, write_checked,
}
use synth_agent_runtime.Artifacts.Guard.Isolation.{read_isolation}
use synth_agent_runtime.Artifacts.Guard.Quota.{Put}
use synth_agent_runtime.Artifacts.Guard.Ownership.{last_writer_owns}

abbrev repeated : ℕ → ℕ → Text
repeated zero c = []
repeated (suc n) c = c ∷ repeated n c

abbrev small_hash : Bytes → Text
small_hash [] = repeated 64 48
small_hash (b ∷ bytes) = repeated 64 49

small_hash-IsHash : IsHash small_hash
unfolding all_hex
small_hash-IsHash [] = refl
small_hash-IsHash (b ∷ bytes) = refl

abbrev alice : BlobPrincipal
alice = record { tenant_id = "alice"; subject = none }

abbrev bob : BlobPrincipal
bob = record { tenant_id = "bob"; subject = none }

abbrev content : Bytes
content = 104 ∷ 105 ∷ []

abbrev digest : Text
digest = digest_of small_hash content

abbrev file : File
file = record { content = content; mtime_ms = 5 }

abbrev sidecar : Sidecar
sidecar = record {
  media_type = "text/plain";
  produced_by = none;
  produced_from = none;
  tenant_id = some "alice";
}

-- A store with a blob of Alice's, and a quota of three bytes for each tenant.
abbrev guarded : Guarded
guarded = record {
  inner = record { objects = (digest, file) ∷ []; sidecars = (digest, sidecar) ∷ [] };
  quota = record {
    max_bytes_per_blob = none;
    max_bytes_per_tenant = some 3;
    used = ("alice", 2) ∷ [];
  };
  audit = [];
}

abbrev options : PutBlobOptions
options = record { media_type = none; produced_by = none; produced_from = none; tenant_id = none }

read_isolation_example :
    let policy = tenant_blob_policy true in
    let (answer, g') = get_guarded small_hash policy (some bob) guarded digest 7 in
    (answer ≡ err (blob_forbidden read digest))
    × (g'.inner ≡ guarded.inner)
    × (g'.quota ≡ guarded.quota)
    × (stat_guarded small_hash policy (some bob) guarded digest ≡ ok none)
unfolding stat normalize_digest stat_normal stat_file truthy lookup all_hex list_beq
read_isolation_example =
    read_isolation small_hash true bob guarded digest 7 (ref_of digest 2 sidecar) "alice" refl refl
      refl

last_writer_owns_example :
    let g' =
      (put_guarded small_hash (tenant_blob_policy true) (some bob) guarded content options 8).1 in
    (get_guarded small_hash (tenant_blob_policy true) (some alice) g' digest 9).0
    ≡ err (blob_forbidden read digest)
unfolding put_guarded write_checked write_blob put stamp tenant_of truthy non_empty stat_normal
    stat_file tenant_blob_policy lookup list_beq
last_writer_owns_example =
    last_writer_owns small_hash true bob alice guarded content options 8 9
      (ref_of digest 2 (sidecar_of (record options { tenant_id = some "bob" }))) small_hash-IsHash
      refl refl refl

abbrev two_puts : List Put
two_puts =
    record { principal = some bob; bytes = []; options = options; now = 8 }
    ∷ record { principal = some alice; bytes = 1 ∷ 2 ∷ 3 ∷ []; options = options; now = 9 }
    ∷ []
