-- ===== src/Execution/WarmPool/Exclusive.antt =====
-- That no sandbox is leased to two callers at once.
use synth_agent_runtime.Prelude.{
  All, Bool, List, Map, Option, String, [], any, arith, beq_eq, eq_iff, erase, false, if_elim,
  if◌then◌else◌, insert, keys, list_eq, lookup, lookup-erase, lookup-insert, lookup-insert_self,
  nat_eq, none, not, option_eq, pair_eq, refl, some, string_eq, subst, suc, true, zero, ℕ, ◌&&◌,
  ◌+◌, ◌==◌, ◌||◌, ◌∷◌, ◌≡◌, ◌≤◌,
}
use synth_agent_runtime.Execution.WarmPool.{
  Creation, Event, Lease, Phase, Pool, ResourceClass, Slot, acquire, acquire_class, acquire_of,
  acquires, begin_create, begin_creates, close, closes, create_rejects, create_resolves, creates,
  destroy, done, drop_surplus, end_create, end_lease, exceeds_ready, fails, first_ready, give_back,
  hand_new, is_held, is_lease, is_open, is_ready, is_resetting, is_surplus, keep_or_destroy,
  lease_ready, lease_slot, leased, maintain_class, maintain_destroys, maintains, may_create,
  need_of, new_pool, new_slot, refreshed, reject, reject_owner, reject_waiters, release, releases,
  reset_resolves, resets, resetting, resolves, run, serve_first, serve_waiter, set_phase,
  set_waiters, step, take_created, takes,
}

-- The leases of a sandbox that were not given back.
abbrev is_out : String → Lease → Bool
is_out s l = (l.sandbox == s) && is_open l.phase

unfoldable pub outstanding : String → List Lease → ℕ
outstanding s [] = 0
outstanding s (l ∷ leases) = (if is_out s l then 1 else 0) + outstanding s leases

-- What the state of its slot allows.
abbrev pub allowed : Option Slot → ℕ
allowed none = 1
allowed (some slot) = if is_ready slot.state then 0 else 1

abbrev pub IsExclusive : Pool → Type 0
IsExclusive p = (s : String) → outstanding s p.leases ≤ allowed (lookup s p.slots)

IsExclusive-lease_ready :
    (sandbox : String) (slot : Slot) (caller now : ℕ) (p : Pool)
    → IsExclusive p
    → lookup sandbox p.slots ≡ some slot
    → is_ready slot.state ≡ true
    → IsExclusive (lease_ready sandbox slot caller now p)
unfolding outstanding
IsExclusive-lease_ready sandbox slot caller now p v e r s = ground (
  arith,
  v s,
  lookup-insert sandbox s (record slot { state = leased; last_used_at = now }) p.slots,
  eq_iff sandbox s,
)

allowed-le : (o : Option Slot) → allowed o ≤ 1
allowed-le none = omega arith
allowed-le (some slot) = ground arith

-- Taking a slot away, or ending a lease, never breaks it.
outstanding-le : (s : String) (p : Pool) → IsExclusive p → outstanding s p.leases ≤ 1
outstanding-le s p v = omega (arith, v s, allowed-le (lookup s p.slots))

IsExclusive-destroy :
    (sandbox : String) (p : Pool) → IsExclusive p → IsExclusive (destroy sandbox p)
IsExclusive-destroy sandbox p v s =
    ground (arith, v s, outstanding-le s p v, lookup-erase sandbox s p.slots)

set_phase_less :
    (s sandbox : String) (caller : ℕ) (phase : Phase) (leases : List Lease)
    → outstanding s (set_phase caller sandbox phase leases) ≤ outstanding s leases
unfolding outstanding set_phase
set_phase_less s sandbox caller phase [] = omega arith
set_phase_less s sandbox caller phase (l ∷ leases) =
    ground (arith, set_phase_less s sandbox caller phase leases)

set_phase_ended :
    (sandbox : String) (caller : ℕ) (leases : List Lease)
    → any (λ l. is_lease caller sandbox l && is_resetting l.phase) leases ≡ true
    → suc (outstanding sandbox (set_phase caller sandbox done leases)) ≤ outstanding sandbox leases
unfolding outstanding set_phase any
set_phase_ended sandbox caller [] h = absurd (ground arith)
set_phase_ended sandbox caller (l ∷ leases) h = ground (
  arith,
  set_phase_less sandbox sandbox caller done leases,
  set_phase_ended sandbox caller leases,
)

-- Ending or resetting a lease breaks nothing.
IsExclusive-set_phase :
    (sandbox : String) (caller : ℕ) (phase : Phase) (p : Pool)
    → IsExclusive p
    → IsExclusive (record p { leases = set_phase caller sandbox phase p.leases })
IsExclusive-set_phase sandbox caller phase p v s =
    omega (arith, v s, set_phase_less s sandbox caller phase p.leases)

IsExclusive-lease_slot :
    (sandbox : String) (caller now : ℕ) (p : Pool) (found : Option Slot)
    → IsExclusive p
    → lookup sandbox p.slots ≡ found
    → IsExclusive (lease_slot sandbox caller now p found)
unfolding lease_slot
IsExclusive-lease_slot sandbox caller now p none v e = v
IsExclusive-lease_slot sandbox caller now p (some slot) v e =
    if_elim IsExclusive (p.is_closed || not (is_ready slot.state)) (reject caller p)
      (lease_ready sandbox slot caller now p) (λ _. v)
      (λ h. IsExclusive-lease_ready sandbox slot caller now p v e (ground arith))

IsExclusive-serve_first :
    (sandbox : String) (slot : Slot) (now : ℕ) (p : Pool) (waiting : List ℕ)
    → IsExclusive p
    → lookup sandbox p.slots ≡ some slot
    → is_ready slot.state ≡ true
    → IsExclusive (serve_first sandbox slot now p waiting).0
IsExclusive-serve_first sandbox slot now p [] v e r = v
IsExclusive-serve_first sandbox slot now p (w ∷ []) v e r =
    IsExclusive-lease_ready sandbox slot w now (set_waiters slot.resource_class.id [] p) v e r
IsExclusive-serve_first sandbox slot now p (w ∷ x ∷ ws) v e r =
    IsExclusive-lease_ready sandbox slot w now (set_waiters slot.resource_class.id (x ∷ ws) p) v e r

IsExclusive-serve_waiter :
    (sandbox : String) (slot : Slot) (now : ℕ) (p : Pool)
    → IsExclusive p
    → lookup sandbox p.slots ≡ some slot
    → IsExclusive (serve_waiter sandbox slot now p).0
unfolding serve_waiter
IsExclusive-serve_waiter sandbox slot now p v e =
    if_elim (λ (r : Pool × Bool). IsExclusive r.0) (p.is_closed || not (is_ready slot.state))
      (p, false) _ (λ _. v) (λ h. IsExclusive-serve_first sandbox slot now p _ v e (ground arith))

-- A slot that is put as ready under a sandbox of which no lease is outstanding.
IsExclusive-put_ready :
    (sandbox : String) (slot : Slot) (p : Pool)
    → IsExclusive p
    → outstanding sandbox p.leases ≡ 0
    → is_ready slot.state ≡ true
    → IsExclusive (record p { slots = insert sandbox slot p.slots })
IsExclusive-put_ready sandbox slot p v z r s = rw (lookup-insert sandbox s slot p.slots) (
    if_elim (λ o. outstanding s p.leases ≤ allowed o) (sandbox == s) (some slot) (lookup s p.slots)
      (λ e.
        let none_out : outstanding s p.leases ≡ 0 =
          subst (λ x. outstanding x p.leases ≡ 0) (beq_eq sandbox s e) z in
        omega (arith, none_out))
      (λ _. v s))

IsExclusive-keep_or_destroy :
    (sandbox : String) (slot : Slot) (r : Pool × Bool)
    → IsExclusive r.0
    → IsExclusive (keep_or_destroy sandbox slot r)
IsExclusive-keep_or_destroy sandbox slot (p, true) v = v
IsExclusive-keep_or_destroy sandbox slot (p, false) v =
    if_elim IsExclusive (exceeds_ready slot p) (destroy sandbox p) p
      (λ _. IsExclusive-destroy sandbox p v) (λ _. v)

-- The slot of a sandbox that nobody holds is put as ready, and may serve a waiter.
IsExclusive-put_and_serve :
    (sandbox : String) (slot : Slot) (now : ℕ) (p : Pool)
    → IsExclusive p
    → outstanding sandbox p.leases ≡ 0
    → is_ready slot.state ≡ true
    → IsExclusive
        (serve_waiter sandbox slot now (record p { slots = insert sandbox slot p.slots })).0
IsExclusive-put_and_serve sandbox slot now p v z r =
    IsExclusive-serve_waiter sandbox slot now (record p { slots = insert sandbox slot p.slots })
      (IsExclusive-put_ready sandbox slot p v z r) (lookup-insert_self sandbox slot p.slots)

IsExclusive-give_back :
    (sandbox : String) (now : ℕ) (p : Pool) (found : Option Slot)
    → IsExclusive p
    → outstanding sandbox p.leases ≡ 0
    → IsExclusive (give_back sandbox now p found)
unfolding give_back
IsExclusive-give_back sandbox now p none v z = v
IsExclusive-give_back sandbox now p (some slot) v z =
    IsExclusive-keep_or_destroy sandbox slot _
      (IsExclusive-put_and_serve sandbox (refreshed slot now) now p v z refl)

IsExclusive-reset_resolves :
    (caller : ℕ) (sandbox : String) (clean : Bool) (now : ℕ) (p : Pool)
    → IsExclusive p
    → IsExclusive (reset_resolves caller sandbox clean now p)
unfolding reset_resolves
IsExclusive-reset_resolves caller sandbox clean now p v =
    let ended : IsExclusive (end_lease caller sandbox p) =
      IsExclusive-set_phase sandbox caller done p v in
    if_elim IsExclusive
      (not (any (λ l. is_lease caller sandbox l && is_resetting l.phase) p.leases)) p _ (λ _. v)
      (λ h.
        if_elim IsExclusive (not clean || p.is_closed) _ _
          (λ _. IsExclusive-destroy sandbox (end_lease caller sandbox p) ended)
          (λ _.
            let was = outstanding-le sandbox p v in
            let one_less = set_phase_ended sandbox caller p.leases (ground arith) in
            IsExclusive-give_back sandbox now (end_lease caller sandbox p) (lookup sandbox p.slots)
              ended (omega (arith, was, one_less))))

IsExclusive-release :
    (caller : ℕ) (sandbox : String) (destroys : Bool) (p : Pool)
    → IsExclusive p
    → IsExclusive (release caller sandbox destroys p)
unfolding release
IsExclusive-release caller sandbox destroys p v =
    if_elim IsExclusive (not (any (λ l. is_lease caller sandbox l && is_held l.phase) p.leases)) p _
      (λ _. v)
      (λ _.
        if_elim IsExclusive (destroys || p.is_closed) _ _
          (λ _.
            IsExclusive-destroy sandbox (end_lease caller sandbox p)
              (IsExclusive-set_phase sandbox caller done p v))
          (λ _. IsExclusive-set_phase sandbox caller resetting p v))

IsExclusive-maintain_destroys :
    (now : ℕ) (sandboxes : List String) (p : Pool)
    → IsExclusive p
    → IsExclusive (maintain_destroys now sandboxes p)
unfolding maintain_destroys
IsExclusive-maintain_destroys now [] p v = v
IsExclusive-maintain_destroys now (sandbox ∷ sandboxes) p v =
    IsExclusive-maintain_destroys now sandboxes _ (go (lookup sandbox p.slots))
  where
    go : (found : Option Slot) → IsExclusive (drop_surplus now sandbox p found)
    go none = v
    go (some slot) =
        if_elim IsExclusive (is_surplus now p slot) (destroy sandbox p) p
          (λ _. IsExclusive-destroy sandbox p v) (λ _. v)

IsExclusive-begin_creates :
    (need : ℕ) (c : ResourceClass) (p : Pool) → IsExclusive p → IsExclusive (begin_creates need c p)
unfolding begin_creates
IsExclusive-begin_creates zero c p v = v
IsExclusive-begin_creates (suc need) c p v =
    IsExclusive-begin_creates need c (begin_create c none p) v

IsExclusive-maintain_class :
    (p : Pool) (found : Option ResourceClass) → IsExclusive p → IsExclusive (maintain_class p found)
IsExclusive-maintain_class p none v = v
IsExclusive-maintain_class p (some c) v =
    if_elim IsExclusive p.is_closed p (begin_creates (need_of c p) c p) (λ _. v)
      (λ _. IsExclusive-begin_creates (need_of c p) c p v)

IsExclusive-acquire_of :
    (caller now : ℕ) (p : Pool) (c : ResourceClass) (found : Option (String × Slot))
    → IsExclusive p
    → IsExclusive (acquire_of caller now p c found)
unfolding acquire_of
IsExclusive-acquire_of caller now p c none v =
    if_elim IsExclusive (may_create c p) _ _ (λ _. v) (λ _. v)
IsExclusive-acquire_of caller now p c (some (sandbox, slot)) v =
    IsExclusive-lease_slot sandbox caller now p (lookup sandbox p.slots) v refl

IsExclusive-acquire :
    (caller : ℕ) (class_id : String) (now : ℕ) (p : Pool)
    → IsExclusive p
    → IsExclusive (acquire caller class_id now p)
unfolding acquire
IsExclusive-acquire caller class_id now p v =
    if_elim IsExclusive p.is_closed _ _ (λ _. v) (λ _. go (lookup class_id p.classes))
  where
    go : (found : Option ResourceClass) → IsExclusive (acquire_class caller class_id now p found)
    go none = v
    go (some c) = IsExclusive-acquire_of caller now p c (first_ready class_id p) v

-- The backend gives a sandbox that it makes an id that no sandbox had that was leased before.
abbrev pub IsFresh : Event → Pool → Type 0
IsFresh (resolves ticket sandbox now) p = All (λ l. (l.sandbox == sandbox) ≡ false) p.leases
IsFresh event p = Unit

abbrev pub AllFresh : List Event → Pool → Type 0
AllFresh [] p = Unit
AllFresh (e ∷ events) p = IsFresh e p × AllFresh events (step e p)

outstanding_fresh :
    (sandbox : String) (leases : List Lease)
    → All (λ l. (l.sandbox == sandbox) ≡ false) leases
    → outstanding sandbox leases ≡ 0
unfolding outstanding
outstanding_fresh sandbox [] h = refl
outstanding_fresh sandbox (l ∷ leases) h =
    rw h.0 (ground (arith, outstanding_fresh sandbox leases h.1))

IsExclusive-create_resolves :
    (ticket : ℕ) (sandbox : String) (now : ℕ) (p : Pool) (found : Option Creation)
    → IsExclusive p
    → outstanding sandbox p.leases ≡ 0
    → IsExclusive (create_resolves ticket sandbox now p found)
unfolding create_resolves reject_waiters
IsExclusive-create_resolves ticket sandbox now p none v z = v
IsExclusive-create_resolves ticket sandbox now p (some c) v z =
    if_elim IsExclusive p.is_closed _ _ (λ _. go c.owner) (λ _. hand c.owner)
  where
    go :
        (owner : Option ℕ) → IsExclusive (reject_owner owner (reject_waiters c.resource_class.id p))
    go none = v
    go (some caller) = v

    hand :
        (owner : Option ℕ)
        → IsExclusive (
            hand_new sandbox
              (new_slot c.resource_class now)
              now
              owner
              (record p { slots = insert sandbox (new_slot c.resource_class now) p.slots }))
    hand none = IsExclusive-put_and_serve sandbox (new_slot c.resource_class now) now p v z refl
    hand (some caller) = IsExclusive-put_ready sandbox (new_slot c.resource_class now) p v z refl

IsExclusive-create_rejects :
    (ticket : ℕ) (p : Pool) (found : Option Creation)
    → IsExclusive p
    → IsExclusive (create_rejects ticket p found)
unfolding create_rejects reject_waiters
IsExclusive-create_rejects ticket p none v = v
IsExclusive-create_rejects ticket p (some c) v = go c.owner
  where
    go :
        (owner : Option ℕ)
        → IsExclusive
            (end_create ticket c (reject_owner owner (reject_waiters c.resource_class.id p)))
    go none = v
    go (some caller) = v

IsExclusive-take_created :
    (caller now : ℕ) (p : Pool) (found : Option String)
    → IsExclusive p
    → IsExclusive (take_created caller now p found)
unfolding take_created
IsExclusive-take_created caller now p none v = v
IsExclusive-take_created caller now p (some sandbox) v =
    IsExclusive-lease_slot sandbox caller now (record p { created = erase caller p.created })
      (lookup sandbox p.slots) v refl

IsExclusive-close : (p : Pool) → IsExclusive p → IsExclusive (close p)
unfolding close lookup
IsExclusive-close p v = if_elim IsExclusive p.is_closed p _ (λ _. v) (λ _ s. outstanding-le s p v)

IsExclusive-step : (e : Event) (p : Pool) → IsFresh e p → IsExclusive p → IsExclusive (step e p)
unfolding step
IsExclusive-step (acquires caller class_id now) p f v = IsExclusive-acquire caller class_id now p v
IsExclusive-step (resolves ticket sandbox now) p f v =
    IsExclusive-create_resolves ticket sandbox now p (lookup ticket p.creations) v
      (outstanding_fresh sandbox p.leases f)
IsExclusive-step (fails ticket) p f v =
    IsExclusive-create_rejects ticket p (lookup ticket p.creations) v
IsExclusive-step (takes caller now) p f v =
    IsExclusive-take_created caller now p (lookup caller p.created) v
IsExclusive-step (releases caller sandbox destroys) p f v =
    IsExclusive-release caller sandbox destroys p v
IsExclusive-step (resets caller sandbox clean now) p f v =
    IsExclusive-reset_resolves caller sandbox clean now p v
IsExclusive-step (maintains now) p f v =
    if_elim IsExclusive p.is_closed p _ (λ _. v)
      (λ _. IsExclusive-maintain_destroys now (keys p.slots) p v)
IsExclusive-step (creates class_id) p f v =
    IsExclusive-maintain_class p (lookup class_id p.classes) v
IsExclusive-step closes p f v = IsExclusive-close p v

IsExclusive-run :
    (events : List Event) (p : Pool)
    → AllFresh events p
    → IsExclusive p
    → IsExclusive (run events p)
unfolding run
IsExclusive-run [] p f v = v
IsExclusive-run (e ∷ events) p f v =
    IsExclusive-run events (step e p) f.1 (IsExclusive-step e p f.0 v)

-- From a new pool, after any events in any order, a sandbox is leased to at most one caller that has
-- not given it back, and to none while its slot is ready to be leased. The backend gives each sandbox
-- that it makes an id that no leased sandbox had.
pub run-IsExclusive :
    (classes : Map String ResourceClass) (events : List Event) (sandbox : String)
    → AllFresh events (new_pool classes)
    → (outstanding sandbox (run events (new_pool classes)).leases ≤ 1)
      × (outstanding sandbox (run events (new_pool classes)).leases
          ≤ allowed (lookup sandbox (run events (new_pool classes)).slots))
unfolding outstanding lookup
run-IsExclusive classes events sandbox f =
    let v = IsExclusive-run events (new_pool classes) f (λ s. omega arith) in
    (outstanding-le sandbox (run events (new_pool classes)) v, v sandbox)
