-- ===== src/Artifacts/Guard.antt =====
-- src/artifacts/blob-store.ts: `TenantBlobPolicy`, `TenantWriteQuota` and `GuardedBlobStore`. The
-- guarded store is the one of the file system. The principal is an argument of each operation, as
-- `forPrincipal` makes it. An audit event is what a call emits. `put_guarded` is a write that no other
-- write overlaps; the child module Overlap has its two stretches as steps.
pub mod Isolation
pub mod Quota
pub mod Ownership
pub mod Overlap
mod Tests
use synth_agent_runtime.Prelude.{
  Bool, List, Map, Option, Result, String, [], err, false, if◌then◌else◌, insert, length, list_eq,
  lookup, ltb, nat_eq, none, not, ok, option_eq, or_else, pair_eq, some, string_eq, true, ℕ, ◌++◌,
  ◌+◌, ◌==◌, ◌>>=◌, ◌>>◌, ◌∷◌,
}
use synth_agent_runtime.Workspace.Snapshot.{Bytes, Text}
use synth_agent_runtime.Artifacts.Blobs.{
  BlobError, BlobRef, BlobStore, PutBlobOptions, digest_of, get, put, stat, stat_normal, truthy,
}

pub data Op : Type 0 where
  read write : Op

pub record BlobPrincipal : Type 0 where
  pub tenant_id : String
  pub subject : Option String

pub record BlobAccessRequest : Type 0 where
  pub op : Op
  pub digest : Text
  pub ref : Option BlobRef
  pub principal : Option BlobPrincipal

abbrev pub BlobAccessPolicy : Type 0
BlobAccessPolicy = BlobAccessRequest → Bool

-- `SharedTrustDomainPolicy`
abbrev pub shared_trust_domain : BlobAccessPolicy
shared_trust_domain request = true

abbrev pub is_some {ℓ} : {A : Type ℓ} → Option A → Bool
is_some none = false
is_some (some a) = true

-- `request.principal?.tenantId`, of which an empty text counts as none
unfoldable pub tenant_of : Option BlobPrincipal → Option String
tenant_of none = none
tenant_of (some principal) = truthy (some principal.tenant_id)

-- whether a blob of this owner may be read by the tenant
unfoldable pub may_read : Bool → String → Option String → Bool
may_read allow_shared_read tenant none = allow_shared_read
may_read allow_shared_read tenant (some owner) = owner == tenant

abbrev pub owner_of : Option BlobRef → Option String
owner_of none = none
owner_of (some ref) = ref.tenant_id

unfoldable pub authorize_read : Bool → Option BlobRef → Option String → Bool
unfolding may_read
authorize_read allow_shared_read ref none = false
authorize_read allow_shared_read ref (some tenant) =
    may_read allow_shared_read tenant (owner_of ref)

-- `TenantBlobPolicy`
unfoldable pub tenant_blob_policy : Bool → BlobAccessPolicy
unfolding tenant_of authorize_read
tenant_blob_policy allow_shared_read request = elim request.op [
  | write ↦ is_some request.principal
  | read ↦ authorize_read allow_shared_read request.ref (tenant_of request.principal)
]

-- `TenantWriteQuota`
pub record TenantWriteQuota : Type 0 where
  pub max_bytes_per_blob : Option ℕ
  pub max_bytes_per_tenant : Option ℕ
  pub used : Map String ℕ

pub data QuotaError : Type 0 where
  blob_too_large tenant_over : ℕ → ℕ → QuotaError

abbrev pub quota_key : Option String → String
quota_key tenant_id = or_else tenant_id "<shared>"

pub data Done : Type 0 where
  done : Done

abbrev pub usage : TenantWriteQuota → Option String → ℕ
usage quota tenant_id = or_else (lookup (quota_key tenant_id) quota.used) 0

unfoldable pub check_blob : Option ℕ → ℕ → Result QuotaError Done
check_blob none bytes = ok done
check_blob (some most) bytes = if ltb most bytes then err (blob_too_large bytes most) else ok done

unfoldable pub check_tenant : Option ℕ → ℕ → Result QuotaError Done
check_tenant none total = ok done
check_tenant (some most) total = if ltb most total then err (tenant_over total most) else ok done

unfoldable pub check : TenantWriteQuota → Option String → ℕ → Result QuotaError Done
unfolding check_blob check_tenant
check quota tenant_id bytes = do
  fits ← check_blob quota.max_bytes_per_blob bytes
  check_tenant quota.max_bytes_per_tenant (usage quota tenant_id + bytes)

unfoldable pub commit : TenantWriteQuota → Option String → ℕ → TenantWriteQuota
commit quota tenant_id bytes = record quota {
  used = insert (quota_key tenant_id) (usage quota tenant_id + bytes) quota.used;
}

pub data AccessOutcome : Type 0 where
  allowed denied not_found : AccessOutcome

pub record BlobAuditEvent : Type 0 where
  pub op : Op
  pub digest : Text
  pub outcome : AccessOutcome
  pub principal : Option BlobPrincipal
  pub at_ms : ℕ

pub data GuardError : Type 0 where
  blob_forbidden : Op → Text → GuardError
  blob_not_found : Text → GuardError
  quota_exceeded : QuotaError → GuardError
  store_error : BlobError → GuardError

-- what the guarded store and its quota keep
pub record Guarded : Type 0 where
  pub inner : BlobStore
  pub quota : TenantWriteQuota
  pub audit : List BlobAuditEvent

abbrev pub emit : Guarded → Op → Text → AccessOutcome → Option BlobPrincipal → ℕ → Guarded
emit g op digest outcome principal now =
    let event : BlobAuditEvent = record {
      op = op;
      digest = digest;
      outcome = outcome;
      principal = principal;
      at_ms = now;
    } in
    record g { audit = g.audit ++ event ∷ [] }

-- `principal?.tenantId`
abbrev pub quota_tenant : Option BlobPrincipal → Option String
quota_tenant none = none
quota_tenant (some principal) = some principal.tenant_id

-- `options`, with the principal's tenant if it has one
unfoldable pub stamp : PutBlobOptions → Option String → PutBlobOptions
stamp options none = options
stamp options (some tenant) = record options { tenant_id = some tenant }

module _ (sha256_hex : Bytes → Text) (policy : BlobAccessPolicy)
    (principal : Option BlobPrincipal) where
  -- the write itself, and what is charged for it
  unfoldable pub write_blob : Guarded → Bytes → PutBlobOptions → ℕ → Bool → BlobRef × Guarded
  unfolding stamp tenant_of commit
  write_blob g bytes options now is_new =
      let (ref, inner) = put sha256_hex g.inner bytes (stamp options (tenant_of principal)) now in
      let quota =
        if is_new then commit g.quota (quota_tenant principal) (length bytes) else g.quota in
      (ref, emit (record g { inner = inner; quota = quota }) write ref.digest allowed principal now)

  unfoldable pub write_checked :
      Guarded
      → Bytes
      → PutBlobOptions
      → ℕ
      → Result QuotaError Done
      → Bool
      → Result GuardError BlobRef × Guarded
  unfolding write_blob
  write_checked g bytes options now (ok d) is_new =
      let (ref, g') = write_blob g bytes options now is_new in (ok ref, g')
  write_checked g bytes options now (err e) is_new = (err (quota_exceeded e), g)

  abbrev pub write_request : Bytes → BlobAccessRequest
  write_request bytes = record {
    op = write;
    digest = digest_of sha256_hex bytes;
    ref = none;
    principal = principal;
  }

  unfoldable pub put_guarded :
      Guarded → Bytes → PutBlobOptions → ℕ → Result GuardError BlobRef × Guarded
  unfolding write_checked stat_normal check
  put_guarded g bytes options now =
      let digest = digest_of sha256_hex bytes in
      let is_new = not (is_some (stat_normal g.inner digest)) in
      if policy (write_request bytes)
      then write_checked g bytes options now
          (if is_new then check g.quota (quota_tenant principal) (length bytes) else ok done) is_new
      else (err (blob_forbidden write digest), emit g write digest denied principal now)

  abbrev pub read_request : BlobRef → BlobAccessRequest
  read_request ref = record {
    op = read;
    digest = ref.digest;
    ref = some ref;
    principal = principal;
  }

  abbrev pub inner_error : Result BlobError Bytes → Result GuardError Bytes
  inner_error (ok bytes) = ok bytes
  inner_error (err e) = err (store_error e)

  -- `get`, once `inner.stat` has answered
  unfoldable pub get_stated :
      Guarded → Text → ℕ → Result BlobError (Option BlobRef) → Result GuardError Bytes × Guarded
  get_stated g digest now (err e) = (err (store_error e), g)
  get_stated g digest now (ok none) =
      (err (blob_not_found digest), emit g read digest not_found principal now)
  get_stated g digest now (ok (some ref)) =
      if policy (read_request ref)
      then (
        inner_error (get sha256_hex g.inner ref.digest),
        emit g read ref.digest allowed principal now,
      )
      else (err (blob_forbidden read digest), emit g read ref.digest denied principal now)

  unfoldable pub get_guarded : Guarded → Text → ℕ → Result GuardError Bytes × Guarded
  unfolding get_stated
  get_guarded g digest now = get_stated g digest now (stat g.inner digest)

  unfoldable pub visible : Option BlobRef → Option BlobRef
  visible none = none
  visible (some ref) = if policy (read_request ref) then some ref else none

  unfoldable pub stat_guarded : Guarded → Text → Result BlobError (Option BlobRef)
  unfolding visible
  stat_guarded g digest = do ref ← stat g.inner digest; ok (visible ref)
