-- ===== src/Gateway/Lanes.antt =====
-- src/inference/gateway/lane-scheduler.ts: `LaneScheduler`. The clock is the argument `now`. A
-- ticket `t<n>` is the number n. The reserve fraction and its credit count whole thousandths, where the
-- source adds floating-point fractions.
pub mod Picking
pub mod Capacity
pub mod Deadlines
mod Tests
use synth_agent_runtime.Prelude.{
  Bool, List, Map, Option, Result, String, [], add, any, eqb, err, false, find, if◌then◌else◌,
  insert, keep, leb, length, list_eq, lookup, ltb, map, min, nat_eq, none, not, ok, option_eq,
  or_else, some, string_eq, suc, true, ℕ, ◌&&◌, ◌*◌, ◌++◌, ◌+◌, ◌-◌, ◌==◌, ◌>>=◌, ◌>>◌, ◌||◌, ◌∷◌,
}
use synth_agent_runtime.Prelude.Int.{
  JsNumber, eqb_ℤ, infinity, ltb_ℤ, max_ℤ, nan, neg_infinity, pos, pos_part, positive, whole, ℤ,
  ◌+ℤ◌, ◌-ℤ◌,
}

pub record LaneSpec : Type 0 where
  pub id : String
  pub priority : ℤ
  pub weight : JsNumber
  pub max_wait_ms : ℕ

pub record AdmissionRequest : Type 0 where
  pub lane : String
  pub tenant_id : String
  pub key : String
  pub at_ms : ℕ

pub data AdmissionRejection : Type 0 where
  unknown_lane lane_full deadline rate_limited : AdmissionRejection

pub data AdmissionDecision : Type 0 where
  admitted : AdmissionDecision
  queued : ℕ → ℕ → AdmissionDecision
  rejected : AdmissionRejection → ℕ → AdmissionDecision

pub record Queued : Type 0 where
  pub ticket : ℕ
  pub request : AdmissionRequest
  pub enqueued_at : ℕ

pub record LaneSchedulerOptions : Type 0 where
  pub capacity : JsNumber
  pub default_lane : Option String
  pub estimated_service_ms : Option ℕ
  pub lower_band_reserve : Option JsNumber

pub record LaneScheduler : Type 0 where
  pub lanes : Map String LaneSpec
  pub capacity : ℕ
  pub default_lane : String
  pub estimated_service_ms : ℕ
  pub reserve : ℕ
  pub in_flight : ℕ
  pub queue : List Queued
  pub sequence : ℕ
  pub deficit : Map String ℤ
  pub credit : ℕ

pub data SchedulerError : Type 0 where
  no_lanes : SchedulerError
  invalid_capacity : JsNumber → SchedulerError
  duplicate_lane unknown_default_lane : String → SchedulerError

-- a whole credit, in thousandths
abbrev pub whole_credit : ℕ
whole_credit = 1000

unfoldable pub add_lanes :
    Map String LaneSpec → List LaneSpec → Result SchedulerError (Map String LaneSpec)
add_lanes m [] = ok m
add_lanes m (l ∷ ls) = elim (lookup l.id m) [
  | some other ↦ err (duplicate_lane l.id)
  | none ↦ add_lanes (insert l.id l m) ls
]

-- the first lane of the lowest priority, by a stable sort
unfoldable pub lowest : LaneSpec → List LaneSpec → LaneSpec
lowest best [] = best
lowest best (l ∷ ls) = lowest (if ltb_ℤ l.priority best.priority then l else best) ls

-- `Number.isFinite(reserve) ? Math.max(0, Math.min(1, reserve)) : 0.2`
unfoldable pub clamp_reserve : Option JsNumber → ℕ
clamp_reserve none = 200
clamp_reserve (some (whole z)) = min whole_credit (pos_part z)
clamp_reserve (some infinity) = 200
clamp_reserve (some neg_infinity) = 200
clamp_reserve (some nan) = 200

unfoldable pub build :
    LaneSpec
    → List LaneSpec
    → LaneSchedulerOptions
    → ℕ
    → Map String LaneSpec
    → Result SchedulerError LaneScheduler
unfolding lowest clamp_reserve
build l ls options capacity lanes =
    let fallback = or_else options.default_lane (lowest l ls).id in
    elim (lookup fallback lanes) [
      | none ↦ err (unknown_default_lane fallback)
      | some spec ↦ ok (record {
        lanes = lanes;
        capacity = capacity;
        default_lane = fallback;
        estimated_service_ms = or_else options.estimated_service_ms 1000;
        reserve = clamp_reserve options.lower_band_reserve;
        in_flight = 0;
        queue = [];
        sequence = 0;
        deficit = [];
        credit = 0;
      })
    ]

unfoldable pub new_with :
    LaneSpec → List LaneSpec → LaneSchedulerOptions → Option ℕ → Result SchedulerError LaneScheduler
unfolding build add_lanes
new_with l ls options none = err (invalid_capacity options.capacity)
new_with l ls options (some capacity) = do
  lanes ← add_lanes [] (l ∷ ls)
  build l ls options capacity lanes

-- the constructor
pub new_scheduler : List LaneSpec → LaneSchedulerOptions → Result SchedulerError LaneScheduler
unfolding new_with
new_scheduler [] options = err no_lanes
new_scheduler (l ∷ ls) options = new_with l ls options (positive options.capacity)

-- `this.#lanes.get(lane) ?? this.#lanes.get(this.#defaultLane)`
unfoldable pub spec_of : LaneScheduler → String → Option LaneSpec
spec_of s lane = elim (lookup lane s.lanes) [
  | some spec ↦ some spec
  | none ↦ lookup s.default_lane s.lanes
]

unfoldable pub max_wait : Option LaneSpec → ℕ
max_wait none = 0
max_wait (some spec) = spec.max_wait_ms

unfoldable pub enqueue : LaneScheduler → AdmissionRequest → ℕ → AdmissionDecision × LaneScheduler
enqueue s request now =
    let entry : Queued = record { ticket = s.sequence + 1; request = request; enqueued_at = now } in
    (
      queued (s.sequence + 1) (length s.queue * s.estimated_service_ms),
      record s { sequence = s.sequence + 1; queue = s.queue ++ entry ∷ [] },
    )

unfoldable pub admit_to :
    LaneScheduler → AdmissionRequest → ℕ → Option LaneSpec → AdmissionDecision × LaneScheduler
unfolding enqueue
admit_to s request now none = (rejected unknown_lane 0, s)
admit_to s request now (some lane) =
    if ltb s.in_flight s.capacity
    then (admitted, record s { in_flight = s.in_flight + 1 })
    else if eqb lane.max_wait_ms 0
    then (rejected lane_full 0, s)
    else enqueue s request now

unfoldable pub admit : LaneScheduler → AdmissionRequest → ℕ → AdmissionDecision × LaneScheduler
unfolding admit_to
admit s request now = admit_to s request now (spec_of s request.lane)

-- `lane.maxWaitMs > 0 && now - entry.enqueuedAt > lane.maxWaitMs`
unfoldable pub is_expired : LaneScheduler → ℕ → Queued → Bool
is_expired s now entry =
    let wait = max_wait (spec_of s entry.request.lane) in
    ltb 0 wait && ltb (entry.enqueued_at + wait) now

-- the requests that have waited too long
pub expire : LaneScheduler → ℕ → List AdmissionRequest × LaneScheduler
expire s now = (
  map (λ (q : Queued). q.request) (keep (is_expired s now) s.queue),
  record s { queue = keep (λ q. not (is_expired s now q)) s.queue },
)

unfoldable pub remove_ticket : ℕ → List Queued → List Queued
remove_ticket ticket [] = []
remove_ticket ticket (q ∷ qs) = if eqb q.ticket ticket then qs else q ∷ remove_ticket ticket qs

unfoldable pub cancel : LaneScheduler → ℕ → Bool × LaneScheduler
unfolding remove_ticket
cancel s ticket =
    if any (λ (q : Queued). eqb q.ticket ticket) s.queue
    then (true, record s { queue = remove_ticket ticket s.queue })
    else (false, s)

-- `this.#lanes.get(entry.request.lane)?.priority ?? 0`
unfoldable pub priority_of : LaneScheduler → Queued → ℤ
priority_of s entry = elim (lookup entry.request.lane s.lanes) [
  | none ↦ pos 0
  | some spec ↦ spec.priority
]

unfoldable pub weight_of : LaneScheduler → String → ℕ
weight_of s lane = elim (lookup lane s.lanes) [
  | none ↦ 1
  | some spec ↦ or_else (positive spec.weight) 1
]

-- `[...new Set(entries.map((entry) => entry.request.lane))]`
unfoldable pub active_lanes : List String → List Queued → List String
active_lanes seen [] = seen
active_lanes seen (q ∷ qs) = active_lanes (add q.request.lane seen) qs

unfoldable pub first_index : String → List Queued → ℕ
first_index lane [] = 0
first_index lane (q ∷ qs) = if q.request.lane == lane then 0 else suc (first_index lane qs)

unfoldable pub total_weight : LaneScheduler → List String → ℕ
total_weight s [] = 0
total_weight s (l ∷ ls) = weight_of s l + total_weight s ls

abbrev pub deficit_at : Map String ℤ → String → ℤ
deficit_at m lane = or_else (lookup lane m) (pos 0)

-- each active lane is credited its weight
unfoldable pub credit_lanes : LaneScheduler → Map String ℤ → List String → Map String ℤ
credit_lanes s m [] = m
credit_lanes s m (l ∷ ls) = credit_lanes s (insert l (deficit_at m l +ℤ pos (weight_of s l)) m) ls

-- `lane` takes the place of the best lane so far
unfoldable pub beats : Map String ℤ → List Queued → String → String → Bool
beats m entries lane best =
    ltb_ℤ (deficit_at m best) (deficit_at m lane)
    || (eqb_ℤ (deficit_at m lane) (deficit_at m best)
        && ltb (first_index lane entries) (first_index best entries))

unfoldable pub best_lane : Map String ℤ → List Queued → String → List String → String
unfolding beats
best_lane m entries best [] = best
best_lane m entries best (l ∷ ls) =
    best_lane m entries (if beats m entries l best then l else best) ls

abbrev pub in_lane : String → Queued → Bool
in_lane lane q = q.request.lane == lane

unfoldable pub pick_from : LaneScheduler → List Queued → List String → Option Queued × Map String ℤ
unfolding credit_lanes best_lane total_weight
pick_from s entries [] = (none, s.deficit)
pick_from s entries (l ∷ ls) =
    let m = credit_lanes s s.deficit (l ∷ ls) in
    let best = best_lane m entries l (l ∷ ls) in
    (
      find (in_lane best) entries,
      insert best (deficit_at m best -ℤ pos (total_weight s (l ∷ ls))) m,
    )

-- the entry that is chosen, and the deficits after it
unfoldable pub pick_weighted : LaneScheduler → List Queued → Option Queued × Map String ℤ
unfolding pick_from
pick_weighted s entries = pick_from s entries (active_lanes [] entries)

unfoldable pub max_priority : LaneScheduler → ℤ → List Queued → ℤ
max_priority s best [] = best
max_priority s best (q ∷ qs) = max_priority s (max_ℤ best (priority_of s q)) qs

abbrev pub top_of : LaneScheduler → ℤ → List Queued → List Queued
top_of s best qs = keep (λ q. eqb_ℤ (priority_of s q) best) qs

abbrev pub lower_of : LaneScheduler → ℤ → List Queued → List Queued
lower_of s best qs = keep (λ q. ltb_ℤ (priority_of s q) best) qs

abbrev pub is_nil {ℓ} : {A : Type ℓ} → List A → Bool
is_nil [] = true
is_nil (x ∷ xs) = false

-- a lower band is queued and is owed an admission
unfoldable pub owes_lower : LaneScheduler → Queued → List Queued → Bool
owes_lower s q qs =
    not (is_nil (lower_of s (max_priority s (priority_of s q) qs) (q ∷ qs)))
    && leb whole_credit s.credit

unfoldable pub group_of : LaneScheduler → Queued → List Queued → List Queued
unfolding owes_lower
group_of s q qs =
    let best = max_priority s (priority_of s q) qs in
    if owes_lower s q qs then lower_of s best (q ∷ qs) else top_of s best (q ∷ qs)

unfoldable pub credit_after : LaneScheduler → Bool → ℕ
credit_after s owed =
    min whole_credit ((if owed then s.credit - whole_credit else s.credit) + s.reserve)

unfoldable pub take_chosen :
    LaneScheduler → Option Queued × Map String ℤ → Option Queued × LaneScheduler
take_chosen s (none, m) = (none, record s { deficit = m })
take_chosen s (some chosen, m) =
    (some chosen, record s { deficit = m; queue = remove_ticket chosen.ticket s.queue })

-- `#takeNext`, when requests are queued that have not expired
unfoldable pub take_among : LaneScheduler → Queued → List Queued → Option Queued × LaneScheduler
unfolding take_chosen group_of
take_among s q qs =
    take_chosen (record s { credit = credit_after s (owes_lower s q qs) })
      (pick_weighted s (group_of s q qs))

unfoldable pub take_queued : LaneScheduler → List Queued → Option Queued × LaneScheduler
unfolding take_among
take_queued s [] = (none, s)
take_queued s (q ∷ qs) = take_among s q qs

-- the queued requests that may still be admitted
unfoldable pub live : LaneScheduler → ℕ → List Queued
live s now = keep (λ q. not (is_expired s now q)) s.queue

unfoldable pub take_next : LaneScheduler → ℕ → Option Queued × LaneScheduler
unfolding take_queued live
take_next s now = take_queued (record s { queue = live s now }) (live s now)

abbrev pub started : Option Queued × LaneScheduler → Option Queued × LaneScheduler
started (none, s) = (none, s)
started (some q, s) = (some q, record s { in_flight = s.in_flight + 1 })

unfoldable pub release : LaneScheduler → ℕ → Option Queued × LaneScheduler
release s now = started (take_next (record s { in_flight = s.in_flight - 1 }) now)

-- The calls of a scheduler.
pub data Call : Type 0 where
  admits : AdmissionRequest → ℕ → Call
  expires releases : ℕ → Call
  cancels : ℕ → Call

pub step : LaneScheduler → Call → LaneScheduler
step s (admits request now) = (admit s request now).1
step s (expires now) = (expire s now).1
step s (releases now) = (release s now).1
step s (cancels ticket) = (cancel s ticket).1

pub run : LaneScheduler → List Call → LaneScheduler
run s [] = s
run s (c ∷ cs) = run (step s c) cs
