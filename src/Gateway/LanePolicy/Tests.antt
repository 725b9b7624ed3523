-- ===== src/Gateway/LanePolicy/Tests.antt =====
-- The policy's theorem at one slot and a request that waits for it.
use synth_agent_runtime.Gateway.LanePolicy.{LanePrincipal, PriorityLanePolicy}
use synth_agent_runtime.Prelude.{[], list_eq, nat_eq, none, option_eq, pair_eq, string_eq, ◌∷◌}
use synth_agent_runtime.Prelude.Int.{pos, whole}
use synth_agent_runtime.Gateway.Lanes.{LaneSpec, Queued}

abbrev batch : LaneSpec
batch = record { id = "batch"; priority = pos 0; weight = whole (pos 1); max_wait_ms = 100 }

abbrev policy : PriorityLanePolicy
policy = record {
  scheduler = record {
    lanes = ("batch", batch) ∷ [];
    capacity = 1;
    default_lane = "batch";
    estimated_service_ms = 1000;
    reserve = 200;
    in_flight = 1;
    queue = [];
    sequence = 0;
    deficit = [];
    credit = 0;
  };
  default_lane = "batch";
  waiters = [];
}

abbrev principal : LanePrincipal
principal = record { tenant_id = "tenant"; subject = "user"; lane = none }

abbrev waiting : Queued
waiting = record {
  ticket = 1;
  request = record { lane = "batch"; tenant_id = "tenant"; key = "user"; at_ms = 5 };
  enqueued_at = 5;
}
