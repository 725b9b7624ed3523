-- ===== src/Gateway/Lanes/Deadlines.antt =====
-- What `release` hands back: a request in time, and of the highest band unless a lower one is owed.
use mathlib.Core.List.{Mem, mem-cons_of_mem, mem-cons_self}
use synth_agent_runtime.Prelude.{
  All, All-keep, All-map, Bool, Bool-cases, List, Map, Option, String, [], arith, false, if_elim,
  inl, inr, keep, keep_passes, leb, list_eq, nat_eq, none, not, option_eq, pair_eq, refl, some,
  string_eq, subst, sym, true, ℕ, ◌&&◌, ◌-◌, ◌<◌, ◌∙◌, ◌∷◌, ◌≡◌,
}
use synth_agent_runtime.Prelude.Int.{eqb_ℤ, ltb_ℤ, max_ℤ, ℤ}
use synth_agent_runtime.Gateway.Lanes.{
  LaneScheduler, Queued, credit_after, group_of, is_expired, is_nil, live, lower_of, max_priority,
  owes_lower, pick_weighted, priority_of, release, spec_of, started, take_among, take_chosen,
  take_next, take_queued, top_of, whole_credit,
}
use synth_agent_runtime.Gateway.Lanes.Picking.{pick_weighted-All}

group_of-All :
    (P : Queued → Type 0) (s : LaneScheduler) (q : Queued) (qs : List Queued)
    → All P (q ∷ qs)
    → All P (group_of s q qs)
unfolding group_of
group_of-All P s q qs v =
    let best = max_priority s (priority_of s q) qs in
    if_elim (All P) (owes_lower s q qs) (lower_of s best (q ∷ qs)) (top_of s best (q ∷ qs))
      (λ _. All-keep P _ (q ∷ qs) v) (λ _. All-keep P _ (q ∷ qs) v)

take_chosen-fst : (s : LaneScheduler) (p : Option Queued × Map String ℤ) → (take_chosen s p).0 ≡ p.0
unfolding take_chosen
take_chosen-fst s (none, m) = refl
take_chosen-fst s (some q, m) = refl

take_among-All :
    (P : Queued → Type 0) (s : LaneScheduler) (q : Queued) (qs : List Queued) (r : Queued)
    → (take_among s q qs).0 ≡ some r
    → All P (group_of s q qs)
    → P r
unfolding take_among
take_among-All P s q qs r h v =
    pick_weighted-All P s (group_of s q qs) r
      (sym (
          take_chosen-fst (record s { credit = credit_after s (owes_lower s q qs) })
            (pick_weighted s (group_of s q qs)))
        ∙ h)
      v

take_queued-All :
    (P : Queued → Type 0) (s : LaneScheduler) (qs : List Queued) (r : Queued)
    → (take_queued s qs).0 ≡ some r
    → All P qs
    → P r
unfolding take_queued
take_queued-All P s [] r h v = absurd (cc)
take_queued-All P s (q ∷ qs) r h v = take_among-All P s q qs r h (group_of-All P s q qs v)

started-fst : (p : Option Queued × LaneScheduler) → (started p).0 ≡ p.0
started-fst (none, s) = refl
started-fst (some q, s) = refl

-- A request that `release` hands back was queued, so it has every property of all queued requests,
-- and it has not waited past the deadline of its lane.
pub release_in_time :
    (P : Queued → Type 0) (s : LaneScheduler) (now : ℕ) (r : Queued)
    → (release s now).0 ≡ some r
    → All P s.queue
    → P r × (is_expired s now r ≡ false)
unfolding release take_next live is_expired spec_of
release_in_time P s now r h v =
    let s' : LaneScheduler = record s { in_flight = s.in_flight - 1 } in
    let e : (take_next s' now).0 ≡ some r = sym (started-fst (take_next s' now)) ∙ h in
    let s'' : LaneScheduler = record s' { queue = live s' now } in
    (
      take_queued-All P s'' (live s' now) r e (All-keep P _ s.queue v),
      in_time (
          take_queued-All (λ q. not (is_expired s now q) ≡ true) s'' (live s' now) r e
            (keep_passes (λ q. not (is_expired s now q)) s.queue)),
    )
  where
    in_time : not (is_expired s now r) ≡ true → is_expired s now r ≡ false
    in_time t = ground arith

max_priority-le :
    (s : LaneScheduler) (b : ℤ) (qs : List Queued)
    → (ltb_ℤ (max_priority s b qs) b ≡ false)
      × All (λ q. ltb_ℤ (max_priority s b qs) (priority_of s q) ≡ false) qs
unfolding max_priority
max_priority-le s b [] = (ground arith, tt)
max_priority-le s b (q ∷ qs) =
    let (least, rest) = max_priority-le s (max_ℤ b (priority_of s q)) qs in
    (ground arith, (ground arith, rest))

group_of_top :
    (s : LaneScheduler) (q : Queued) (qs : List Queued)
    → s.credit < whole_credit
    → group_of s q qs ≡ top_of s (max_priority s (priority_of s q) qs) (q ∷ qs)
unfolding group_of owes_lower
group_of_top s q qs c =
    rw (owed (not (is_nil (lower_of s (max_priority s (priority_of s q) qs) (q ∷ qs)))), group_of)
  where
    owed : (b : Bool) → (b && leb whole_credit s.credit) ≡ false
    owed true = ground arith
    owed false = refl

no_higher : (a b c : ℤ) → eqb_ℤ a b ≡ true → ltb_ℤ b c ≡ false → ltb_ℤ a c ≡ false
no_higher a b c h k = ground arith

take_queued_top :
    (s : LaneScheduler) (qs : List Queued) (r : Queued)
    → s.credit < whole_credit
    → (take_queued s qs).0 ≡ some r
    → All (λ q. ltb_ℤ (priority_of s r) (priority_of s q) ≡ false) qs
unfolding take_queued
take_queued_top s [] r c h = tt
take_queued_top s (q ∷ qs) r c h =
    let best = max_priority s (priority_of s q) qs in
    let (least, rest) = max_priority-le s (priority_of s q) qs in
    let reached : eqb_ℤ (priority_of s r) best ≡ true =
      take_among-All (λ x. eqb_ℤ (priority_of s x) best ≡ true) s q qs r h
        (subst (All (λ x. eqb_ℤ (priority_of s x) best ≡ true)) (sym (group_of_top s q qs c))
          (keep_passes (λ x. eqb_ℤ (priority_of s x) best) (q ∷ qs))) in
    (
      no_higher (priority_of s r) best (priority_of s q) reached least,
      All-map _ _ qs (λ x low. no_higher (priority_of s r) best (priority_of s x) reached low) rest,
    )

Mem-All : (xs : List Queued) → All (λ x. Mem x xs) xs
Mem-All [] = tt
Mem-All (x ∷ xs) = (mem-cons_self, All-map _ _ xs (λ y m. mem-cons_of_mem x m) (Mem-All xs))

-- What holds of all that are kept holds of each that passes the test.
All-kept :
    (P : Queued → Type 0) (p : Queued → Bool) (xs : List Queued)
    → All P (keep p xs)
    → All (λ x. p x ≡ true → P x) xs
unfolding keep
All-kept P p [] h = tt
All-kept P p (x ∷ xs) h = elim (Bool-cases (p x)) [
  | inl t ↦ let h' = rw t at h in (λ _. h'.0, All-kept P p xs h'.1)
  | inr f ↦ (λ t. absurd (ground arith), All-kept P p xs (rw f at h))
]

-- A request that `release` hands back was queued and has not waited past the deadline of its lane.
-- While less than a whole credit is saved up for the lower bands, no queued request of a higher
-- priority has a deadline that is still to come.
pub release_top_band :
    (s : LaneScheduler) (now : ℕ) (r : Queued)
    → s.credit < whole_credit
    → (release s now).0 ≡ some r
    → Mem r s.queue
      × (is_expired s now r ≡ false)
      × All
          (λ q. not (is_expired s now q) ≡ true → ltb_ℤ (priority_of s r) (priority_of s q) ≡ false)
          s.queue
unfolding release take_next live is_expired spec_of priority_of
release_top_band s now r c h =
    let s' : LaneScheduler = record s { in_flight = s.in_flight - 1 } in
    let top =
      take_queued_top (record s' { queue = live s' now }) (live s' now) r c
        (sym (started-fst (take_next s' now)) ∙ h) in
    let (waits, in_time) = release_in_time (λ q. Mem q s.queue) s now r h (Mem-All s.queue) in
    (
      waits,
      in_time,
      All-kept (λ q. ltb_ℤ (priority_of s r) (priority_of s q) ≡ false)
          (λ q. not (is_expired s now q)) s.queue top,
    )
