-- ===== src/Gateway/Lanes/Picking.antt =====
-- `#takeNext` finds a request whenever one is queued that has not expired.
use synth_agent_runtime.Prelude.{
  All, All-append, All-map, Bool, List, Map, String, [], add, any, arith, eq_iff, find-All,
  find-any, if_elim, if◌then◌else◌, includes, inl, keep-any, list_eq, nat_eq, none, option_eq, refl,
  some, string_eq, true, ◌++◌, ◌∷◌, ◌≡◌, ◌≢◌, ◌⊎◌,
}
use synth_agent_runtime.Prelude.Int.{eqb_ℤ, max_ℤ, ℤ}
use synth_agent_runtime.Gateway.Lanes.{
  LaneScheduler, Queued, active_lanes, beats, best_lane, credit_lanes, in_lane, max_priority,
  pick_from, pick_weighted, priority_of, top_of,
}

best_lane-All :
    (P : String → Type 0) (m : Map String ℤ) (entries : List Queued) (best : String)
    (ls : List String)
    → P best
    → All P ls
    → P (best_lane m entries best ls)
unfolding best_lane
best_lane-All P m entries best [] h v = h
best_lane-All P m entries best (l ∷ ls) h v =
    best_lane-All P m entries (if beats m entries l best then l else best) ls
      (if_elim P (beats m entries l best) l best (λ _. v.0) (λ _. h)) v.1

add-All : (P : String → Type 0) (a : String) (s : List String) → P a → All P s → All P (add a s)
unfolding add
add-All P a s h v =
    if_elim (All P) (includes a s) s (s ++ a ∷ []) (λ _. v) (λ _. All-append P s (a ∷ []) v (h, tt))

active_lanes-All :
    (P : String → Type 0) (seen : List String) (qs : List Queued)
    → All P seen
    → All (λ (q : Queued). P q.request.lane) qs
    → All P (active_lanes seen qs)
unfolding active_lanes
active_lanes-All P seen [] h v = h
active_lanes-All P seen (q ∷ qs) h v =
    active_lanes-All P (add q.request.lane seen) qs (add-All P q.request.lane seen v.0 h) v.1

active_lanes-ne_nil :
    (seen : List String) (qs : List Queued) → seen ≢ [] → active_lanes seen qs ≢ []
unfolding active_lanes add
active_lanes-ne_nil seen [] h = h
active_lanes-ne_nil [] (q ∷ qs) h = absurd (h refl)
active_lanes-ne_nil (l ∷ seen) (q ∷ qs) h = active_lanes-ne_nil (add q.request.lane (l ∷ seen)) qs (
    if_elim (λ (r : List String). r ≢ []) (includes q.request.lane (l ∷ seen)) (l ∷ seen)
      ((l ∷ seen) ++ q.request.lane ∷ []) (λ _ e. cc) (λ _ e. cc))

abbrev HasLane : List Queued → String → Type 0
HasLane entries lane = any (in_lane lane) entries ≡ true

HasLane-All : (entries : List Queued) → All (λ (q : Queued). HasLane entries q.request.lane) entries
unfolding any
HasLane-All [] = tt
HasLane-All (q ∷ qs) = (
  ground (arith, eq_iff q.request.lane q.request.lane),
  All-map (λ (x : Queued). HasLane qs x.request.lane)
      (λ (x : Queued). HasLane (q ∷ qs) x.request.lane) qs (λ x h. ground arith) (HasLane-All qs),
)

pick_from-some :
    (s : LaneScheduler) (entries : List Queued) (ls : List String)
    → ls ≢ []
    → All (HasLane entries) ls
    → (pick_from s entries ls).0 ≢ none
unfolding pick_from
pick_from-some s entries [] h v = absurd (h refl)
pick_from-some s entries (l ∷ ls) h v =
    find-any (in_lane best) entries (best_lane-All (HasLane entries) m entries l (l ∷ ls) v.0 v)
  where
    m : Map String ℤ
    m = credit_lanes s s.deficit (l ∷ ls)

    best : String
    best = best_lane m entries l (l ∷ ls)

-- From a group that is not empty an entry is picked.
pub pick_weighted-some :
    (s : LaneScheduler) (entries : List Queued) → entries ≢ [] → (pick_weighted s entries).0 ≢ none
unfolding pick_weighted active_lanes add includes
pick_weighted-some s [] h = absurd (h refl)
pick_weighted-some s (q ∷ qs) h =
    pick_from-some s (q ∷ qs) (active_lanes [] (q ∷ qs))
      (active_lanes-ne_nil (q.request.lane ∷ []) qs (λ e. cc))
      (active_lanes-All (HasLane (q ∷ qs)) [] (q ∷ qs) tt (HasLane-All (q ∷ qs)))

pick_from-All :
    (P : Queued → Type 0) (s : LaneScheduler) (entries : List Queued) (ls : List String)
    (q : Queued)
    → (pick_from s entries ls).0 ≡ some q
    → All P entries
    → P q
unfolding pick_from
pick_from-All P s entries [] q h v = absurd (ground arith)
pick_from-All P s entries (l ∷ ls) q h v = find-All P _ entries h v

-- What is picked is an entry of the group.
pub pick_weighted-All :
    (P : Queued → Type 0) (s : LaneScheduler) (entries : List Queued) (q : Queued)
    → (pick_weighted s entries).0 ≡ some q
    → All P entries
    → P q
unfolding pick_weighted
pick_weighted-All P s entries q h v = pick_from-All P s entries (active_lanes [] entries) q h v

eqb_ℤ_refl : (a : ℤ) → eqb_ℤ a a ≡ true
eqb_ℤ_refl a = ground arith

any-skip :
    (p : Queued → Bool) (q : Queued) (qs : List Queued) → any p qs ≡ true → any p (q ∷ qs) ≡ true
unfolding any
any-skip p q qs h = ground arith

max_priority-reached :
    (s : LaneScheduler) (b : ℤ) (qs : List Queued)
    → (max_priority s b qs ≡ b)
      ⊎ (any (λ q. eqb_ℤ (priority_of s q) (max_priority s b qs)) qs ≡ true)
unfolding max_priority any
max_priority-reached s b [] = inl refl
max_priority-reached s b (q ∷ qs) =
    ground
      (arith, max_priority-reached s (max_ℤ b (priority_of s q)) qs, eqb_ℤ_refl (priority_of s q))

pub top-ne_nil :
    (s : LaneScheduler) (q : Queued) (qs : List Queued)
    → top_of s (max_priority s (priority_of s q) qs) (q ∷ qs) ≢ []
unfolding any
top-ne_nil s q qs =
    keep-any _ (q ∷ qs)
      (ground (arith, max_priority-reached s (priority_of s q) qs, eqb_ℤ_refl (priority_of s q)))
