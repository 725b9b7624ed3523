-- ===== src/Durability/LocalStore/Tests.antt =====
-- The store's theorems at one command and one effect.
use synth_agent_runtime.Prelude.{
  List, [], arith, false, list_eq, lookup, nat_eq, none, option_eq, refl, some, string_eq, ℕ, ◌∷◌,
  ◌≡◌, ◌≤◌,
}
use synth_agent_runtime.Durability.State.{
  DurableCommandRecord, DurableEffectRecord, committed, failed, started,
}
use synth_agent_runtime.Durability.LocalStore.{
  LocalRuntimeStateStore, claim_effect, empty_store, get_command, get_effect,
}
use synth_agent_runtime.Durability.LocalStore.Monotone.{
  Call, IsCommitted, IsCommitted-run, claim_once, claims_command, puts_command, puts_effect, rank,
  rank-run, run,
}

abbrev receipt : DurableEffectRecord ℕ
receipt = record {
  id = "effect";
  status = committed;
  kind = "workspace.write";
  started_at = 1;
  updated_at = 2;
  result = some 7;
  error = none;
}

abbrev command : DurableCommandRecord
command = record {
  id = "command";
  status = committed;
  started_at = 1;
  updated_at = 2;
  result = none;
  error = none;
  owner_id = none;
  fencing_token = some 3;
  lease_expires_at = none;
  reconciliation_required = none;
}

abbrev store : LocalRuntimeStateStore ℕ
store = record {
  commands = ("command", command) ∷ [];
  workspaces = [];
  turns = [];
  effects = ("effect", receipt) ∷ [];
}

abbrev late : List (Call ℕ)
late =
    puts_effect (record receipt { status = started })
    ∷ claims_command (record command { status = failed; fencing_token = some 9 })
    ∷ puts_command (record command { status = started; fencing_token = some 9 })
    ∷ []

rank-run_example : rank (get_effect store "effect") ≤ rank (get_effect (run store late) "effect")
rank-run_example = rank-run store late "effect"

IsCommitted-run_example : IsCommitted 2 (get_command (run store late) "command")
unfolding get_command lookup
IsCommitted-run_example = IsCommitted-run store late "command" 2 (refl, omega arith)

claim_once_example :
    (claim_effect (run (claim_effect (empty_store ℕ) receipt).1 late) receipt).0.claimed ≡ false
claim_once_example = claim_once (empty_store ℕ) receipt receipt late refl
