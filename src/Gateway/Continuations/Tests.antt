-- ===== src/Gateway/Continuations/Tests.antt =====
-- The continuation store at three records of two tenants.
use synth_agent_runtime.Prelude.{
  String, [], erase, length, list_eq, nat_eq, option_eq, pair_eq, refl, some, string_eq, ℕ, ◌∷◌,
  ◌≡◌, ◌≤◌,
}
use synth_agent_runtime.Gateway.Continuations.{ContinuationRecord, Records, put_continuation}
use synth_agent_runtime.Gateway.Continuations.Bounds.{put_continuation_lem}

abbrev entry : String → ContinuationRecord ℕ
entry id = record {
  id = id;
  value = 7;
  created_at = 1;
  expires_at = some 10;
  tenant_id = some "tenant";
}

abbrev two_entries : Records ℕ
two_entries = ("c1", entry "c1") ∷ ("c2", entry "c2") ∷ []

put_continuation_lem_example :
    (put_continuation 2 two_entries (entry "c3") ≡ ("c2", entry "c2") ∷ ("c3", entry "c3") ∷ [])
    × (length (put_continuation 2 two_entries (entry "c3")) ≤ 2)
unfolding erase
put_continuation_lem_example =
    put_continuation_lem 2 two_entries (entry "c3") refl (refl, (refl, tt))
