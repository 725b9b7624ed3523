-- ===== src/ControlPlane/Lease/Tests.antt =====
-- The lease theorems at a lease that agent "a" lets run out and agent "b" then takes.
use synth_agent_runtime.Prelude.{
  [], arith, false, list_eq, lookup, nat_eq, none, ok, option_eq, pair_eq, refl, some, string_eq,
  ◌∷◌, ◌≡◌, ◌≢◌,
}
use synth_agent_runtime.Prelude.Int.{JsNumber, pos, positive, whole}
use synth_agent_runtime.ControlPlane.Lease.{
  LeaseRecord, LeaseStore, acquire_lease, acquire_within, claim, grant, held, is_holder, release,
  release_lease, renew_lease, run, validate_lease, validate_ttl,
}
use synth_agent_runtime.ControlPlane.Lease.Fencing.{stale_token}
use synth_agent_runtime.ControlPlane.Lease.Exclusion.{acquire_while_held}

abbrev ttl : JsNumber
ttl = whole (pos 10)

abbrev first : LeaseRecord
first = record {
  resource_id = "cell";
  owner_id = "a";
  fencing_token = 1;
  acquired_at = 0;
  updated_at = 0;
  expires_at = 10;
}

abbrev taken : LeaseStore
taken = record { leases = ("cell", first) ∷ []; tokens = ("cell", 1) ∷ [] }

stale_token_example :
    let s' = run (acquire_lease taken "cell" "b" ttl 20).1 (release "cell" "b" 2 ∷ []) in
    (validate_lease s' "cell" "a" 1 25 ≡ none)
    × ((renew_lease s' "cell" "a" 1 ttl 25).0 ≢ ok (some first))
    × (release_lease s' "cell" "a" 1 ≡ (false, s'))
unfolding acquire_lease acquire_within validate_ttl claim grant lookup positive
stale_token_example =
    stale_token taken "cell" "b" ttl 20 1 (release "cell" "b" 2 ∷ []) "a" ttl 25 first (omega arith)
      refl

acquire_while_held_example :
    acquire_lease taken "cell" "b" ttl 5 ≡ (ok (record { acquired = false; lease = first }), taken)
unfolding validate_lease held is_holder lookup positive
acquire_while_held_example = acquire_while_held taken "cell" "a" "b" 1 5 10 ttl first refl refl
