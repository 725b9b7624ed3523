-- ===== src/Artifacts/Guard/Quota.antt =====
-- What writes may use up, and what a refused write leaves.
use synth_agent_runtime.Prelude.{
  Bool, List, Option, Result, String, [], err, if_elim, list_eq, nat_eq, ok, option_eq, pair_eq,
  refl, some, string_eq, ℕ, ◌∷◌, ◌≡◌, ◌≤◌,
}
use synth_agent_runtime.Workspace.Snapshot.{Bytes, Text}
use synth_agent_runtime.Artifacts.Blobs.{BlobRef, PutBlobOptions}
use synth_agent_runtime.Artifacts.Guard.{
  BlobAccessPolicy, BlobPrincipal, Done, GuardError, Guarded, QuotaError, TenantWriteQuota,
  put_guarded, usage, write_checked, write_request,
}

-- No tenant has used up more than its ceiling.
abbrev pub IsWithin : TenantWriteQuota → Type 0
IsWithin quota =
    (tenant_id : Option String) (most : ℕ)
    → quota.max_bytes_per_tenant ≡ some most
    → usage quota tenant_id ≤ most

pub record Put : Type 0 where
  pub principal : Option BlobPrincipal
  pub bytes : Bytes
  pub options : PutBlobOptions
  pub now : ℕ

module _ (sha256_hex : Bytes → Text) (policy : BlobAccessPolicy) where
  -- Writes one after another, of any principals.
  unfoldable pub put_all : Guarded → List Put → Guarded
  put_all g [] = g
  put_all g (p ∷ ps) =
      put_all (put_guarded sha256_hex policy p.principal g p.bytes p.options p.now).1 ps

  -- A write that is refused, by the policy or by the quota, stores and charges nothing.
  pub put_refused :
      (principal : Option BlobPrincipal) (g : Guarded) (bytes : Bytes) (options : PutBlobOptions)
      (now : ℕ) (e : GuardError)
      → (put_guarded sha256_hex policy principal g bytes options now).0 ≡ err e
      → let g' = (put_guarded sha256_hex policy principal g bytes options now).1 in
        (g'.inner ≡ g.inner) × (g'.quota ≡ g.quota)
  unfolding put_guarded write_checked
  put_refused principal g bytes options now e =
      if_elim
        (λ (r : Result GuardError BlobRef × Guarded).
          r.0 ≡ err e → (r.1.inner ≡ g.inner) × (r.1.quota ≡ g.quota))
        (policy (write_request sha256_hex policy principal bytes)) _ _ (λ _. unwritten _ _)
        (λ _ h. (refl, refl))
    where
      unwritten :
          (r : Result QuotaError Done) (is_new : Bool)
          → let (answer, g') =
              write_checked sha256_hex policy principal g bytes options now r is_new in
            answer ≡ err e → (g'.inner ≡ g.inner) × (g'.quota ≡ g.quota)
      unwritten (ok d) is_new h = absurd (cc)
      unwritten (err x) is_new h = (refl, refl)
