-- ===== src/Artifacts/Guard/Isolation.antt =====
-- What `TenantBlobPolicy` keeps apart.
use synth_agent_runtime.Prelude.{
  Bool, Option, String, arith, err, false, list_eq, nat_eq, none, ok, option_eq, pair_eq, refl,
  some, string_eq, ℕ, ◌==◌, ◌≡◌,
}
use synth_agent_runtime.Workspace.Snapshot.{Bytes, Text}
use synth_agent_runtime.Artifacts.Blobs.{BlobRef, stat, truthy}
use synth_agent_runtime.Artifacts.Guard.{
  BlobPrincipal, Guarded, authorize_read, blob_forbidden, get_guarded, get_stated, may_read, read,
  read_request, stat_guarded, tenant_blob_policy, tenant_of, visible,
}

tenant-denied :
    (allow : Bool) (t owner : String) (ref : BlobRef) (o : Option String)
    → ((a : String) → o ≡ some a → a ≡ t)
    → ref.tenant_id ≡ some owner
    → (owner == t) ≡ false
    → authorize_read allow (some ref) o ≡ false
unfolding authorize_read may_read
tenant-denied allow t owner ref none only e other = refl
tenant-denied allow t owner ref (some a) only e other = rw (e, only a refl) other

truthy-same : (text : String) (a : String) → truthy (some text) ≡ some a → a ≡ text
unfolding truthy
truthy-same text a h = ground (arith)

module _ (sha256_hex : Bytes → Text) (allow : Bool) where
  policy-denies :
      (p : BlobPrincipal) (ref : BlobRef) (owner : String)
      → ref.tenant_id ≡ some owner
      → (owner == p.tenant_id) ≡ false
      → tenant_blob_policy allow (read_request sha256_hex (tenant_blob_policy allow) (some p) ref)
        ≡ false
  unfolding tenant_blob_policy tenant_of
  policy-denies p ref owner e other =
      tenant-denied allow p.tenant_id owner ref (truthy (some p.tenant_id))
        (truthy-same p.tenant_id) e other

  -- Tenants are kept apart: a blob that belongs to another tenant cannot be read, the refused read
  -- changes neither the store nor the quota, and `stat` does not even show that the blob is there.
  pub read_isolation :
      (p : BlobPrincipal) (g : Guarded) (digest : Text) (now : ℕ) (ref : BlobRef) (owner : String)
      → stat g.inner digest ≡ ok (some ref)
      → ref.tenant_id ≡ some owner
      → (owner == p.tenant_id) ≡ false
      → let policy = tenant_blob_policy allow in
        let (answer, g') = get_guarded sha256_hex policy (some p) g digest now in
        (answer ≡ err (blob_forbidden read digest))
        × (g'.inner ≡ g.inner)
        × (g'.quota ≡ g.quota)
        × (stat_guarded sha256_hex policy (some p) g digest ≡ ok none)
  unfolding get_guarded get_stated stat_guarded visible
  read_isolation p g digest now ref owner h e other =
      rw (h, policy-denies p ref owner e other) (refl, refl, refl, refl)
