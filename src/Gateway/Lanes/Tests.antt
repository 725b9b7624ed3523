-- ===== src/Gateway/Lanes/Tests.antt =====
-- The scheduler's theorems at two lanes and one slot.
use mathlib.Core.List.{Mem}
use synth_agent_runtime.Prelude.{
  All, List, String, [], add, arith, false, find, includes, insert, keep, list_eq, lookup, nat_eq,
  none, not, option_eq, pair_eq, refl, string_eq, true, ◌∷◌, ◌≡◌,
}
use synth_agent_runtime.Prelude.Int.{ltb_ℤ, pos, positive, whole, ◌+ℤ◌}
use synth_agent_runtime.Gateway.Lanes.{
  AdmissionRequest, Call, LaneScheduler, LaneSchedulerOptions, LaneSpec, Queued, active_lanes,
  add_lanes, admits, beats, best_lane, build, clamp_reserve, credit_after, credit_lanes,
  first_index, group_of, is_expired, live, lowest, max_priority, max_wait, new_scheduler, new_with,
  owes_lower, pick_from, pick_weighted, priority_of, release, releases, run, spec_of, take_among,
  take_chosen, take_next, take_queued, total_weight, weight_of,
}
use synth_agent_runtime.Gateway.Lanes.Capacity.{IsSound, run-IsSound_from_new}
use synth_agent_runtime.Gateway.Lanes.Deadlines.{release_top_band}

abbrev batch : LaneSpec
batch = record { id = "batch"; priority = pos 0; weight = whole (pos 1); max_wait_ms = 100 }

abbrev interactive : LaneSpec
interactive = record batch { id = "interactive"; priority = pos 2 }

abbrev options : LaneSchedulerOptions
options = record {
  capacity = whole (pos 1);
  default_lane = none;
  estimated_service_ms = none;
  lower_band_reserve = none;
}

abbrev idle : LaneScheduler
idle = record {
  lanes = ("batch", batch) ∷ ("interactive", interactive) ∷ [];
  capacity = 1;
  default_lane = "batch";
  estimated_service_ms = 1000;
  reserve = 200;
  in_flight = 0;
  queue = [];
  sequence = 0;
  deficit = [];
  credit = 0;
}

abbrev request : String → AdmissionRequest
request lane = record { lane = lane; tenant_id = "tenant"; key = "user"; at_ms = 0 }

abbrev calls : List Call
calls = admits (request "batch") 0 ∷ admits (request "interactive") 1 ∷ releases 2 ∷ []

run-IsSound_from_new_example : IsSound (run idle calls)
unfolding new_scheduler new_with build add_lanes lowest clamp_reserve positive lookup insert
run-IsSound_from_new_example = run-IsSound_from_new (batch ∷ interactive ∷ []) options calls refl

abbrev first : Queued
first = record { ticket = 1; request = request "batch"; enqueued_at = 0 }

abbrev second : Queued
second = record { ticket = 2; request = request "interactive"; enqueued_at = 1 }

abbrev full : LaneScheduler
full = record idle { in_flight = 1; queue = first ∷ second ∷ []; sequence = 2 }

-- Every request of the queue is one of the two.
abbrev IsOfUser : Queued → Type 0
IsOfUser q = q.request.key ≡ "user"

release_top_band_example :
    Mem second full.queue
    × (is_expired full 2 second ≡ false)
    × All
        (λ q.
          not (is_expired full 2 q) ≡ true
          → ltb_ℤ (priority_of full second) (priority_of full q) ≡ false)
        full.queue
unfolding release take_next live take_queued take_among take_chosen group_of owes_lower max_priority
    priority_of spec_of is_expired max_wait pick_weighted pick_from best_lane beats credit_lanes
    total_weight weight_of first_index active_lanes credit_after lookup insert find positive keep
    add includes ◌+ℤ◌
release_top_band_example = release_top_band full 2 second (omega arith) refl
