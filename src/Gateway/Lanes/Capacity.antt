-- ===== src/Gateway/Lanes/Capacity.antt =====
-- The scheduler stays within its capacity and leaves no slot free while a request is queued.
use synth_agent_runtime.Prelude.{
  Bool, List, Map, Option, Result, String, [], arith, err, if_elim, keep, leb, list_eq, nat_eq,
  none, not, ok, option_eq, refl, some, string_eq, true, ℕ, ◌&&◌, ◌-◌, ◌<◌, ◌>>=◌, ◌∷◌, ◌≡◌, ◌≢◌,
  ◌≤◌,
}
use synth_agent_runtime.Prelude.Int.{positive, positive_pos, ℤ}
use synth_agent_runtime.Gateway.Lanes.{
  AdmissionRequest, Call, LaneScheduler, LaneSchedulerOptions, LaneSpec, Queued, SchedulerError,
  add_lanes, admit, admit_to, admits, build, cancel, cancels, credit_after, enqueue, expire,
  expires, group_of, is_nil, live, lower_of, max_priority, new_scheduler, new_with, owes_lower,
  pick_weighted, priority_of, release, releases, remove_ticket, run, spec_of, started, step,
  take_among, take_chosen, take_next, take_queued, top_of, whole_credit,
}
use synth_agent_runtime.Gateway.Lanes.Picking.{pick_weighted-some, top-ne_nil}

-- At least one slot, no more admissions in flight than slots, and none free while one waits.
pub record IsSound (s : LaneScheduler) : Type 0 where
  pub roomy : 1 ≤ s.capacity
  pub bounded : s.in_flight ≤ s.capacity
  pub busy : s.in_flight < s.capacity → s.queue ≡ []

take_chosen-none :
    (s : LaneScheduler) (p : Option Queued × Map String ℤ) → p.0 ≢ none → (take_chosen s p).0 ≢ none
unfolding take_chosen
take_chosen-none s (none, m) h = h
take_chosen-none s (some q, m) h = λ e. cc

group_of-ne_nil : (s : LaneScheduler) (q : Queued) (qs : List Queued) → group_of s q qs ≢ []
unfolding group_of owes_lower
group_of-ne_nil s q qs =
    let best = max_priority s (priority_of s q) qs in
    if_elim (λ (g : List Queued). g ≢ []) (owes_lower s q qs) (lower_of s best (q ∷ qs))
      (top_of s best (q ∷ qs)) (λ t e. filled (lower_of s best (q ∷ qs)) e t)
      (λ _. top-ne_nil s q qs)
  where
    filled :
        (xs : List Queued) → xs ≡ [] → (not (is_nil xs) && leb whole_credit s.credit) ≡ true → ⊥
    filled [] e t = ground arith
    filled (x ∷ xs) e t = ground arith

take_among-some : (s : LaneScheduler) (q : Queued) (qs : List Queued) → (take_among s q qs).0 ≢ none
unfolding take_among
take_among-some s q qs =
    take_chosen-none (record s { credit = credit_after s (owes_lower s q qs) })
      (pick_weighted s (group_of s q qs))
      (pick_weighted-some s (group_of s q qs) (group_of-ne_nil s q qs))

-- A removal takes entries away and adds none.
take_chosen-keeps :
    (s : LaneScheduler) (p : Option Queued × Map String ℤ)
    → let (o, s') = take_chosen s p in
      (s'.in_flight ≡ s.in_flight)
      × (s'.capacity ≡ s.capacity)
      × (s'.lanes ≡ s.lanes)
      × (s'.default_lane ≡ s.default_lane)
unfolding take_chosen
take_chosen-keeps s (none, m) = (refl, refl, refl, refl)
take_chosen-keeps s (some q, m) = (refl, refl, refl, refl)

take_queued-keeps :
    (s : LaneScheduler) (qs : List Queued)
    → let (o, s') = take_queued s qs in
      (s'.in_flight ≡ s.in_flight)
      × (s'.capacity ≡ s.capacity)
      × (s'.lanes ≡ s.lanes)
      × (s'.default_lane ≡ s.default_lane)
unfolding take_queued take_among
take_queued-keeps s [] = (refl, refl, refl, refl)
take_queued-keeps s (q ∷ qs) =
    take_chosen-keeps (record s { credit = credit_after s (owes_lower s q qs) })
      (pick_weighted s (group_of s q qs))

take_queued-none :
    (s : LaneScheduler) (qs : List Queued)
    → s.queue ≡ qs
    → (take_queued s qs).0 ≡ none
    → (take_queued s qs).1.queue ≡ []
unfolding take_queued
take_queued-none s [] e h = e
take_queued-none s (q ∷ qs) e h = absurd (take_among-some s q qs h)

-- When no request is taken, none is left in the queue.
pub take_next-none :
    (s : LaneScheduler) (now : ℕ) → (take_next s now).0 ≡ none → (take_next s now).1.queue ≡ []
unfolding take_next
take_next-none s now h = take_queued-none (record s { queue = live s now }) (live s now) refl h

take_queued-nil : (s : LaneScheduler) (qs : List Queued) → qs ≡ [] → (take_queued s qs).0 ≡ none
unfolding take_queued
take_queued-nil s [] h = refl
take_queued-nil s (q ∷ qs) h = absurd (cc)

take_next-nil : (s : LaneScheduler) (now : ℕ) → s.queue ≡ [] → (take_next s now).0 ≡ none
unfolding take_next live keep
take_next-nil s now h =
    take_queued-nil (record s { queue = live s now }) (live s now) (rw (h, live))

started-IsSound :
    (n : ℕ) (o : Option Queued) (s : LaneScheduler)
    → 1 ≤ s.capacity
    → s.in_flight ≡ n - 1
    → n ≤ s.capacity
    → (o ≡ none → s.queue ≡ [])
    → (n < s.capacity → o ≡ none)
    → IsSound (started (o, s)).1
started-IsSound n none s roomy e bounded empty idle = record {
  roomy = roomy;
  bounded = omega arith;
  busy = λ _. empty refl;
}
started-IsSound n (some q) s roomy e bounded empty idle = record {
  roomy = roomy;
  bounded = omega arith;
  busy = λ h. absurd (ground (arith, idle));
}

take_next-keeps :
    (s : LaneScheduler) (now : ℕ)
    → let (o, s') = take_next s now in (s'.in_flight ≡ s.in_flight) × (s'.capacity ≡ s.capacity)
unfolding take_next
take_next-keeps s now =
    let kept = take_queued-keeps (record s { queue = live s now }) (live s now) in (kept.0, kept.1)

release-IsSound : (s : LaneScheduler) (now : ℕ) → IsSound s → IsSound (release s now).1
unfolding release
release-IsSound s now v =
    let s' : LaneScheduler = record s { in_flight = s.in_flight - 1 } in
    let kept = take_next-keeps s' now in
    started-IsSound s.in_flight (take_next s' now).0 (take_next s' now).1 (omega (arith, kept, v))
      kept.0 (omega (arith, kept, v)) (take_next-none s' now)
      (λ h. take_next-nil s' now (v.busy (omega (arith, kept, h))))

admit-IsSound :
    (s : LaneScheduler) (request : AdmissionRequest) (now : ℕ) (lane : Option LaneSpec)
    → IsSound s
    → IsSound (admit_to s request now lane).1
unfolding admit_to enqueue
admit-IsSound s request now none v = v
admit-IsSound s request now (some lane) v = record {
  roomy = ground arith;
  bounded = ground arith;
  busy = λ h. ground (arith, v.busy);
}

keep-nil : (p : Queued → Bool) (xs : List Queued) → xs ≡ [] → keep p xs ≡ []
unfolding keep
keep-nil p xs e = rw e

remove_ticket-nil : (t : ℕ) (xs : List Queued) → xs ≡ [] → remove_ticket t xs ≡ []
unfolding remove_ticket
remove_ticket-nil t xs e = rw e

step-IsSound : (s : LaneScheduler) (c : Call) → IsSound s → IsSound (step s c)
unfolding step admit expire cancel
step-IsSound s (admits request now) v = admit-IsSound s request now (spec_of s request.lane) v
step-IsSound s (expires now) v = record {
  roomy = v.roomy;
  bounded = v.bounded;
  busy = λ h. keep-nil _ s.queue (v.busy h);
}
step-IsSound s (releases now) v = release-IsSound s now v
step-IsSound s (cancels ticket) v = record {
  roomy = ground arith;
  bounded = ground arith;
  busy = λ h. ground (arith, remove_ticket-nil ticket s.queue, v.busy);
}

run-IsSound : (s : LaneScheduler) (cs : List Call) → IsSound s → IsSound (run s cs)
unfolding run
run-IsSound s [] v = v
run-IsSound s (c ∷ cs) v = run-IsSound (step s c) cs (step-IsSound s c v)

build-IsSound :
    (l : LaneSpec) (ls : List LaneSpec) (options : LaneSchedulerOptions) (n : ℕ)
    (m : Map String LaneSpec) {s : LaneScheduler}
    → 1 ≤ n
    → build l ls options n m ≡ ok s
    → IsSound s
unfolding build
build-IsSound l ls options n m h e = ground arith

new_with-IsSound :
    (l : LaneSpec) (ls : List LaneSpec) (options : LaneSchedulerOptions) (n : Option ℕ)
    {s : LaneScheduler}
    → ((k : ℕ) → n ≡ some k → 0 < k)
    → new_with l ls options n ≡ ok s
    → IsSound s
unfolding new_with
new_with-IsSound l ls options none h e = absurd (cc)
new_with-IsSound l ls options (some n) h e = built (add_lanes [] (l ∷ ls)) e
  where
    built :
        (r : Result SchedulerError (Map String LaneSpec)) {s : LaneScheduler}
        → (r >>= build l ls options n) ≡ ok s
        → IsSound s
    built (err x) e = absurd (cc)
    built (ok m) e = build-IsSound l ls options n m (h n refl) e

new_scheduler-IsSound :
    (lanes : List LaneSpec) (options : LaneSchedulerOptions) {s : LaneScheduler}
    → new_scheduler lanes options ≡ ok s
    → IsSound s
unfolding new_scheduler
new_scheduler-IsSound [] options e = absurd (cc)
new_scheduler-IsSound (l ∷ ls) options e =
    new_with-IsSound l ls options (positive options.capacity) (λ k. positive_pos options.capacity k)
      e

-- From a constructor that succeeds, whatever requests are admitted, expired, cancelled and released
-- at whatever times: no more requests are in flight than the capacity, and while a slot is free no
-- request is queued.
pub run-IsSound_from_new :
    (lanes : List LaneSpec) (options : LaneSchedulerOptions) (cs : List Call) {s : LaneScheduler}
    → new_scheduler lanes options ≡ ok s
    → IsSound (run s cs)
run-IsSound_from_new lanes options cs {s} e =
    run-IsSound s cs (new_scheduler-IsSound lanes options e)
