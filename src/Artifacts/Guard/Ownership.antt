-- ===== src/Artifacts/Guard/Ownership.antt =====
-- Whose blob it is after a write.
use synth_agent_runtime.Artifacts.Blobs.{
  BlobRef, BlobStore, File, PutBlobOptions, digest_of, existed, put, read_sidecar, ref_of,
  sidecar_of, stat, stat_file, stat_normal, truthy,
}
use synth_agent_runtime.Artifacts.Blobs.Integrity.{IsHash, normalize_digest_of}
use synth_agent_runtime.Artifacts.Guard.Isolation.{read_isolation}
use synth_agent_runtime.Prelude.{
  Bool, Option, Option-cases, Result, String, ap, err, false, if_elim, inl, inr, insert, length,
  list_eq, lookup, lookup-insert_self, nat_eq, none, ok, option_eq, pair_eq, refl, some, string_eq,
  true, ℕ, ◌==◌, ◌≡◌, ◌≢◌,
}
use synth_agent_runtime.Workspace.Snapshot.{Bytes, Text}
use synth_agent_runtime.Artifacts.Guard.{
  BlobAccessPolicy, BlobPrincipal, Done, GuardError, Guarded, QuotaError, blob_forbidden,
  get_guarded, put_guarded, read, stamp, tenant_blob_policy, tenant_of, write_blob, write_checked,
  write_request,
}

-- The blob is there, and it belongs to the tenant.
abbrev pub IsOwned : BlobStore → Text → String → Type 0
IsOwned s digest tenant =
    (ref : BlobRef) × (stat_normal s digest ≡ some ref) × (ref.tenant_id ≡ some tenant)

truthy-named : (t : String) → (t == "") ≡ false → truthy (some t) ≡ some t
unfolding truthy
truthy-named t h = rw h refl

module _ (sha256_hex : Bytes → Text) where
  object_there :
      (s : BlobStore) (bytes : Bytes) (options : PutBlobOptions) (now : ℕ)
      → lookup (digest_of sha256_hex bytes) (put sha256_hex s bytes options now).1.objects ≢ none
  unfolding put existed
  object_there s bytes options now =
      let d = digest_of sha256_hex bytes in
      let file : File = record { content = bytes; mtime_ms = now } in
      if_elim (λ objects. lookup d objects ≢ none) (existed sha256_hex d (lookup d s.objects))
        s.objects (insert d file s.objects) (λ t. held (lookup d s.objects) t)
        (λ _. rw (lookup-insert_self d file s.objects) (λ e. absurd (cc)))
    where
      held : (o : Option File) → existed sha256_hex (digest_of sha256_hex bytes) o ≡ true → o ≢ none
      held none t = absurd (cc)
      held (some f) t = λ e. absurd (cc)

  put-IsOwned :
      (s : BlobStore) (bytes : Bytes) (options : PutBlobOptions) (now : ℕ) (t : String)
      → (t == "") ≡ false
      → options.tenant_id ≡ some t
      → IsOwned (put sha256_hex s bytes options now).1 (digest_of sha256_hex bytes) t
  unfolding stat_normal stat_file put
  put-IsOwned s bytes options now t named owner =
      let d = digest_of sha256_hex bytes in
      let s' = (put sha256_hex s bytes options now).1 in
      elim (Option-cases (lookup d s'.objects)) [
        | inl e ↦ absurd (object_there s bytes options now e)
        | inr (file, e) ↦
            let meta = sidecar_of options in
            (
              ref_of d (length file.content) (read_sidecar (some meta)),
              rw (e, lookup-insert_self d meta s.sidecars) refl,
              rw (owner, truthy-named t named) (truthy-named t named),
            )
      ]

  write-IsOwned :
      (policy : BlobAccessPolicy) (p : BlobPrincipal) (g : Guarded) (bytes : Bytes)
      (options : PutBlobOptions) (now : ℕ) (r : Result QuotaError Done) (is_new : Bool)
      (ref : BlobRef)
      → (p.tenant_id == "") ≡ false
      → let (answer, g') = write_checked sha256_hex policy (some p) g bytes options now r is_new in
        answer ≡ ok ref → IsOwned g'.inner (digest_of sha256_hex bytes) p.tenant_id
  unfolding write_checked write_blob tenant_of stamp
  write-IsOwned policy p g bytes options now (err x) is_new ref named h = absurd (cc)
  write-IsOwned policy p g bytes options now (ok d) is_new ref named h =
      put-IsOwned g.inner bytes (stamp options (tenant_of (some p))) now p.tenant_id named
        (rw (truthy-named p.tenant_id named) refl)

  put_guarded-IsOwned :
      (policy : BlobAccessPolicy) (p : BlobPrincipal) (g : Guarded) (bytes : Bytes)
      (options : PutBlobOptions) (now : ℕ) (ref : BlobRef)
      → (p.tenant_id == "") ≡ false
      → let (answer, g') = put_guarded sha256_hex policy (some p) g bytes options now in
        answer ≡ ok ref → IsOwned g'.inner (digest_of sha256_hex bytes) p.tenant_id
  unfolding put_guarded
  put_guarded-IsOwned policy p g bytes options now ref named =
      if_elim
        (λ (r : Result GuardError BlobRef × Guarded).
          r.0 ≡ ok ref → IsOwned r.1.inner (digest_of sha256_hex bytes) p.tenant_id)
        (policy (write_request sha256_hex policy (some p) bytes)) _ _
        (λ _. write-IsOwned policy p g bytes options now _ _ ref named) (λ _ h. absurd (cc))

  -- The last writer owns the blob: once a tenant has written some bytes, every other tenant is
  -- refused a read of them under `TenantBlobPolicy`, also one that wrote the same bytes before and
  -- could read them until then.
  pub last_writer_owns :
      (allow : Bool) (p q : BlobPrincipal) (g : Guarded) (bytes : Bytes) (options : PutBlobOptions)
      (now later : ℕ) (ref : BlobRef)
      → IsHash sha256_hex
      → (p.tenant_id == "") ≡ false
      → (p.tenant_id == q.tenant_id) ≡ false
      → (put_guarded sha256_hex (tenant_blob_policy allow) (some p) g bytes options now).0 ≡ ok ref
      → let policy = tenant_blob_policy allow in
        let g' = (put_guarded sha256_hex policy (some p) g bytes options now).1 in
        (get_guarded sha256_hex policy (some q) g' (digest_of sha256_hex bytes) later).0
        ≡ err (blob_forbidden read (digest_of sha256_hex bytes))
  unfolding stat
  last_writer_owns allow p q g bytes options now later ref v named other h =
      let policy = tenant_blob_policy allow in
      let d = digest_of sha256_hex bytes in
      let g' = (put_guarded sha256_hex policy (some p) g bytes options now).1 in
      let (held, there, owned) = put_guarded-IsOwned policy p g bytes options now ref named h in
      (read_isolation sha256_hex allow q g' d later held p.tenant_id
        (rw (normalize_digest_of sha256_hex bytes v) (ap ok there)) owned other).0
