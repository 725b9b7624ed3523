-- ===== src/Gateway/LanePolicy.antt =====
-- src/inference/gateway/lane-scheduler.ts: `PriorityLanePolicy`, which joins a scheduler to the
-- promises of the requests that wait. A waiter is the subject whose `authorize` has not settled. A
-- timer is a call that may come at any time while its waiter is there, since a waiter that is
-- resolved clears its timer. The clock is the argument `now`.
pub mod Handover
mod Tests
use synth_agent_runtime.Prelude.{
  List, Map, Option, String, [], erase, insert, list_eq, lookup, max, nat_eq, none, option_eq,
  or_else, pair_eq, some, string_eq, ℕ, ◌∷◌,
}
use synth_agent_runtime.Gateway.Lanes.{
  AdmissionDecision, AdmissionRejection, AdmissionRequest, LaneScheduler, Queued, admit, admitted,
  cancel, max_wait, queued, rejected, release,
}

pub record PriorityLanePolicy : Type 0 where
  pub scheduler : LaneScheduler
  pub default_lane : String
  pub waiters : Map ℕ String

pub record LanePrincipal : Type 0 where
  pub tenant_id : String
  pub subject : String
  pub lane : Option String

-- What `authorize` comes to: it resolves, throws, or waits with a ticket for so many milliseconds.
pub data Answer : Type 0 where
  resolved : Answer
  lane_error : AdmissionRejection → ℕ → Answer
  waits : ℕ → ℕ → Answer

-- `this.#scheduler.lane(lane) ?? this.#scheduler.lane(this.#defaultLane)`
unfoldable pub wait_of : PriorityLanePolicy → String → ℕ
wait_of p lane = elim (lookup lane p.scheduler.lanes) [
  | some spec ↦ spec.max_wait_ms
  | none ↦ max_wait (lookup p.default_lane p.scheduler.lanes)
]

unfoldable pub on_decision :
    PriorityLanePolicy
    → String
    → String
    → AdmissionDecision × LaneScheduler
    → Answer × PriorityLanePolicy
unfolding wait_of
on_decision p lane subject (admitted, s) = (resolved, record p { scheduler = s })
on_decision p lane subject (rejected reason retry, s) =
    (lane_error reason retry, record p { scheduler = s })
on_decision p lane subject (queued ticket retry, s) = (
  waits ticket (max 1 (wait_of p lane)),
  record p { scheduler = s; waiters = insert ticket subject p.waiters },
)

unfoldable pub authorize : PriorityLanePolicy → LanePrincipal → ℕ → Answer × PriorityLanePolicy
unfolding on_decision
authorize p principal now =
    let lane = or_else principal.lane p.default_lane in
    let request : AdmissionRequest = record {
      lane = lane;
      tenant_id = principal.tenant_id;
      key = principal.subject;
      at_ms = now;
    } in
    on_decision p lane principal.subject (admit p.scheduler request now)

-- the timer of a ticket fires, and its `authorize` throws that the deadline has passed
unfoldable pub time_out : PriorityLanePolicy → ℕ → PriorityLanePolicy
time_out p ticket = record p {
  scheduler = (cancel p.scheduler ticket).1;
  waiters = erase ticket p.waiters;
}

unfoldable pub hand_over : PriorityLanePolicy → Option Queued × LaneScheduler → PriorityLanePolicy
hand_over p (none, s) = record p { scheduler = s }
hand_over p (some next, s) = record p { scheduler = s; waiters = erase next.ticket p.waiters }

unfoldable pub release_slot : PriorityLanePolicy → ℕ → PriorityLanePolicy
unfolding hand_over
release_slot p now = hand_over p (release p.scheduler now)

-- The calls of a policy and of its timers.
pub data Call : Type 0 where
  authorizes : LanePrincipal → ℕ → Call
  times_out releases_slot : ℕ → Call

unfoldable pub step : PriorityLanePolicy → Call → PriorityLanePolicy
step p (authorizes principal now) = (authorize p principal now).1
step p (times_out ticket) = time_out p ticket
step p (releases_slot now) = release_slot p now

unfoldable pub run : PriorityLanePolicy → List Call → PriorityLanePolicy
unfolding step
run p [] = p
run p (c ∷ cs) = run (step p c) cs
