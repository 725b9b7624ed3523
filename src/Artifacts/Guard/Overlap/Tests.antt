-- ===== src/Artifacts/Guard/Overlap/Tests.antt =====
-- Two writes of one tenant that overlap.
use synth_agent_runtime.Prelude.{
  [], insert, length, list_beq, list_eq, lookup, nat_eq, none, option_eq, pair_eq, refl, some,
  string_eq, true, ◌∷◌, ◌≡◌,
}
use synth_agent_runtime.Workspace.Snapshot.{Bytes, Text}
use synth_agent_runtime.Artifacts.Blobs.{PutBlobOptions, put}
use synth_agent_runtime.Artifacts.Guard.{tenant_blob_policy, usage}
use synth_agent_runtime.Artifacts.Guard.Quota.{Put}
use synth_agent_runtime.Artifacts.Guard.Overlap.{Overlapping, begins, ends, run}

abbrev options : PutBlobOptions
options = record { media_type = none; produced_by = none; produced_from = none; tenant_id = none }

-- A hash that tells contents of different lengths apart.
abbrev hash : Bytes → Text
hash bytes = length bytes ∷ []

abbrev put_of : Bytes → Put
put_of bytes = record {
  principal = some (record { tenant_id = "alice"; subject = none });
  bytes = bytes;
  options = options;
  now = 1;
}

-- A ceiling of three bytes for each tenant.
abbrev begin : Overlapping
begin = record {
  guarded = record {
    inner = record { objects = []; sidecars = [] };
    quota = record { max_bytes_per_blob = none; max_bytes_per_tenant = some 3; used = [] };
    audit = [];
  };
  pending = [];
}

-- One after another, the second is refused.
one_after_another :
    usage
      (run hash (tenant_blob_policy true) begin (
        begins (put_of (1 ∷ []))
        ∷ ends
        ∷ begins (put_of (1 ∷ 2 ∷ 3 ∷ []))
        ∷ ends
        ∷ [])).guarded.quota
      (some "alice")
    ≡ 1
unfolding lookup run tenant_blob_policy put insert list_beq
one_after_another = refl

-- When both begin before one ends, both pass the check, and together they exceed the ceiling.
overlapping_puts :
    usage
      (run hash (tenant_blob_policy true) begin (
        begins (put_of (1 ∷ []))
        ∷ begins (put_of (1 ∷ 2 ∷ 3 ∷ []))
        ∷ ends
        ∷ ends
        ∷ [])).guarded.quota
      (some "alice")
    ≡ 4
unfolding lookup run tenant_blob_policy insert
overlapping_puts = refl
