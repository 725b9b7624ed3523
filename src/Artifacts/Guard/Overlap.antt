-- ===== src/Artifacts/Guard/Overlap.antt =====
-- src/artifacts/blob-store.ts: `GuardedBlobStore.put` as the two stretches around its wait for the inner
-- write. Writes of several callers overlap: the steps of one may come between those of another.
mod Tests
use synth_agent_runtime.Prelude.{
  Bool, Bool-cases, List, Result, [], err, if◌then◌else◌, inl, inr, length, list_eq, nat_eq, not,
  ok, option_eq, pair_eq, refl, string_eq, ◌++◌, ◌∷◌, ◌≡◌,
}
use synth_agent_runtime.Workspace.Snapshot.{Bytes, Text}
use synth_agent_runtime.Artifacts.Blobs.{digest_of, put, stat_normal}
use synth_agent_runtime.Artifacts.Guard.{
  BlobAccessPolicy, Done, GuardError, Guarded, QuotaError, blob_forbidden, check, denied, done,
  emit, is_some, put_guarded, quota_exceeded, quota_tenant, write, write_blob, write_checked,
  write_request,
}
use synth_agent_runtime.Artifacts.Guard.Quota.{Put}

-- A write between its check and its commit, with whether the object was missing at the check.
pub record Pending : Type 0 where
  pub put : Put
  pub is_new : Bool

-- The guarded store with the writes that are under way, in the order they began.
pub record Overlapping : Type 0 where
  pub guarded : Guarded
  pub pending : List Pending

-- A write begins, or the inner write that began first ends.
pub data Step : Type 0 where
  begins : Put → Step
  ends : Step

module _ (sha256_hex : Bytes → Text) (policy : BlobAccessPolicy) where
  abbrev pub checked : Bool → Result QuotaError Done → Result GuardError Bool
  checked is_new (ok d) = ok is_new
  checked is_new (err e) = err (quota_exceeded e)

  -- `put` up to `await this.inner.put`
  unfoldable pub begin_put : Guarded → Put → Result GuardError Bool × Guarded
  unfolding stat_normal check
  begin_put g p =
      let digest = digest_of sha256_hex p.bytes in
      let is_new = not (is_some (stat_normal g.inner digest)) in
      if policy (write_request sha256_hex policy p.principal p.bytes)
      then (
        checked is_new
            (if is_new then check g.quota (quota_tenant p.principal) (length p.bytes) else ok done),
        g,
      )
      else (err (blob_forbidden write digest), emit g write digest denied p.principal p.now)

  -- the rest of `put`, with the inner write
  abbrev pub end_put : Guarded → Put → Bool → Guarded
  end_put g p is_new = (write_blob sha256_hex policy p.principal g p.bytes p.options p.now is_new).1

  abbrev pub begun : List Pending → Put → Result GuardError Bool × Guarded → Overlapping
  begun pending p (ok is_new, g) = record {
    guarded = g;
    pending = pending ++ record { put = p; is_new = is_new } ∷ [];
  }
  begun pending p (err e, g) = record { guarded = g; pending = pending }

  abbrev pub ended : Guarded → List Pending → Overlapping
  ended g [] = record { guarded = g; pending = [] }
  ended g (p ∷ pending) = record { guarded = end_put g p.put p.is_new; pending = pending }

  unfoldable pub step : Overlapping → Step → Overlapping
  unfolding begin_put write_blob
  step o (begins p) = begun o.pending p (begin_put o.guarded p)
  step o ends = ended o.guarded o.pending

  unfoldable pub run : Overlapping → List Step → Overlapping
  unfolding step
  run o [] = o
  run o (s ∷ steps) = run (step o s) steps

  written :
      (g : Guarded) (p : Put) (r : Result QuotaError Done) (is_new : Bool)
      → (step (begun [] p (checked is_new r, g)) ends).guarded
        ≡ (write_checked sha256_hex policy p.principal g p.bytes p.options p.now r is_new).1
  unfolding write_checked step
  written g p (ok d) is_new = refl
  written g p (err e) is_new = refl

  -- A write that no other overlaps is `put_guarded`.
  run-put_guarded :
      (g : Guarded) (p : Put)
      → (run (record { guarded = g; pending = [] }) (begins p ∷ ends ∷ [])).guarded
        ≡ (put_guarded sha256_hex policy p.principal g p.bytes p.options p.now).1
  unfolding put_guarded run step begin_put
  run-put_guarded g p =
      elim (Bool-cases (policy (write_request sha256_hex policy p.principal p.bytes))) [
        | inl t ↦ rw t (written g p _ _)
        | inr f ↦ rw f refl
      ]
