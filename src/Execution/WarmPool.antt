-- ===== src/Execution/WarmPool.antt =====
-- src/execution/kubernetes/pool.ts: `WarmSandboxPool`. The calls of the backend and of the pool run
-- concurrently, so each stretch of code between two awaits is one event, and the events come in any
-- order. A call of `acquire` is known by a number, which its lease keeps; what the backend answers is
-- part of the event.
pub mod Exclusive
pub mod Closed
mod Tests
use synth_agent_runtime.Prelude.{
  Bool, List, Map, Option, String, [], any, erase, false, find, if◌then◌else◌, insert, keep, keys,
  length, list_eq, lookup, ltb, nat_eq, none, not, option_eq, or_else, pair_eq, some, string_eq,
  suc, true, values, zero, ℕ, ◌&&◌, ◌++◌, ◌+◌, ◌-◌, ◌==◌, ◌||◌, ◌∷◌,
}

pub record WarmPoolPolicy : Type 0 where
  pub min_ready : ℕ
  pub max_ready : ℕ
  pub max_total : ℕ
  pub idle_ttl_ms : ℕ

pub record ResourceClass : Type 0 where
  pub id : String
  pub warm_pool : Option WarmPoolPolicy

pub data SlotState : Type 0 where
  ready leased destroying : SlotState

pub record Slot : Type 0 where
  pub resource_class : ResourceClass
  pub state : SlotState
  pub last_used_at : ℕ

-- `released` is set when a release begins; its slot is given back when the reset is done.
pub data Phase : Type 0 where
  held resetting done : Phase

pub record Lease : Type 0 where
  pub caller : ℕ
  pub sandbox : String
  pub phase : Phase

-- A call of `#createReady`, for the acquirer `owner` or for the waiters.
pub record Creation : Type 0 where
  pub resource_class : ResourceClass
  pub owner : Option ℕ

pub record Pool : Type 0 where
  pub classes : Map String ResourceClass
  pub slots : Map String Slot
  pub waiters : Map String (List ℕ)
  pub creating : Map String ℕ
  pub is_closed : Bool
  -- the calls in progress: creations by ticket, slots that their acquirer has not leased yet
  pub creations : Map ℕ Creation
  pub created : Map ℕ String
  pub next_ticket : ℕ
  -- the leases that were given out, and the callers that were rejected
  pub leases : List Lease
  pub rejected : List ℕ

abbrev pub new_pool : Map String ResourceClass → Pool
new_pool classes = record {
  classes = classes;
  slots = [];
  waiters = [];
  creating = [];
  is_closed = false;
  creations = [];
  created = [];
  next_ticket = 0;
  leases = [];
  rejected = [];
}

abbrev pub is_ready : SlotState → Bool
is_ready ready = true
is_ready leased = false
is_ready destroying = false

abbrev pub is_ready_of : String → String × Slot → Bool
is_ready_of class_id entry = (entry.1.resource_class.id == class_id) && is_ready entry.1.state

unfoldable pub ready_count : String → Pool → ℕ
ready_count class_id p = length (keep (is_ready_of class_id) p.slots)

unfoldable pub total_count : String → Pool → ℕ
total_count class_id p =
    length (keep (λ (e : String × Slot). e.1.resource_class.id == class_id) p.slots)

abbrev pub creating_count : String → Pool → ℕ
creating_count class_id p = or_else (lookup class_id p.creating) 0

abbrev pub reject : ℕ → Pool → Pool
reject caller p = record p { rejected = caller ∷ p.rejected }

-- `#leaseSlot`
abbrev pub lease_ready : String → Slot → ℕ → ℕ → Pool → Pool
lease_ready sandbox slot caller now p = record p {
  slots = insert sandbox (record slot { state = leased; last_used_at = now }) p.slots;
  leases = record { caller = caller; sandbox = sandbox; phase = held } ∷ p.leases;
}

unfoldable pub lease_slot : String → ℕ → ℕ → Pool → Option Slot → Pool
lease_slot sandbox caller now p none = reject caller p
lease_slot sandbox caller now p (some slot) =
    if p.is_closed || not (is_ready slot.state)
    then reject caller p
    else lease_ready sandbox slot caller now p

-- `#serveWaiter`: the pool, and whether a waiter was served
abbrev pub set_waiters : String → List ℕ → Pool → Pool
set_waiters class_id [] p = record p { waiters = erase class_id p.waiters }
set_waiters class_id (w ∷ ws) p = record p { waiters = insert class_id (w ∷ ws) p.waiters }

abbrev pub serve_first : String → Slot → ℕ → Pool → List ℕ → Pool × Bool
serve_first sandbox slot now p [] = (p, false)
serve_first sandbox slot now p (waiter ∷ waiters) =
    (lease_ready sandbox slot waiter now (set_waiters slot.resource_class.id waiters p), true)

unfoldable pub serve_waiter : String → Slot → ℕ → Pool → Pool × Bool
serve_waiter sandbox slot now p =
    if p.is_closed || not (is_ready slot.state)
    then (p, false)
    else serve_first sandbox slot now p (or_else (lookup slot.resource_class.id p.waiters) [])

-- `#destroy`, of which the backend's part is not seen
abbrev pub destroy : String → Pool → Pool
destroy sandbox p = record p { slots = erase sandbox p.slots }

-- `#createReady` up to the call of the backend
abbrev pub begin_create : ResourceClass → Option ℕ → Pool → Pool
begin_create c owner p = record p {
  creating = insert c.id (creating_count c.id p + 1) p.creating;
  creations = insert p.next_ticket (record { resource_class = c; owner = owner }) p.creations;
  next_ticket = p.next_ticket + 1;
}

-- its `finally`
abbrev pub end_create : ℕ → Creation → Pool → Pool
end_create ticket c p =
    let next = creating_count c.resource_class.id p - 1 in
    record p {
      creating =
          if next == 0
          then erase c.resource_class.id p.creating
          else insert c.resource_class.id next p.creating;
      creations = erase ticket p.creations;
    }

unfoldable pub reject_waiters : String → Pool → Pool
reject_waiters class_id p = record p {
  waiters = erase class_id p.waiters;
  rejected = or_else (lookup class_id p.waiters) [] ++ p.rejected;
}

abbrev pub reject_owner : Option ℕ → Pool → Pool
reject_owner none p = p
reject_owner (some caller) p = reject caller p

abbrev pub first_ready : String → Pool → Option (String × Slot)
first_ready class_id p = find (is_ready_of class_id) p.slots

abbrev pub wait_for : String → ℕ → Pool → Pool
wait_for class_id caller p = record p {
  waiters = insert class_id (or_else (lookup class_id p.waiters) [] ++ caller ∷ []) p.waiters;
}

-- `!policy || total < policy.maxTotal`
abbrev pub may_create : ResourceClass → Pool → Bool
may_create c p = elim c.warm_pool [
  | none ↦ true
  | some policy ↦ ltb (total_count c.id p + creating_count c.id p) policy.max_total
]

unfoldable pub acquire_of : ℕ → ℕ → Pool → ResourceClass → Option (String × Slot) → Pool
unfolding lease_slot total_count
acquire_of caller now p c none =
    if may_create c p then begin_create c (some caller) p else wait_for c.id caller p
acquire_of caller now p c (some (sandbox, slot)) =
    lease_slot sandbox caller now p (lookup sandbox p.slots)

abbrev pub acquire_class : ℕ → String → ℕ → Pool → Option ResourceClass → Pool
acquire_class caller class_id now p none = reject caller p
acquire_class caller class_id now p (some c) = acquire_of caller now p c (first_ready class_id p)

unfoldable pub acquire : ℕ → String → ℕ → Pool → Pool
unfolding acquire_of
acquire caller class_id now p =
    if p.is_closed
    then reject caller p
    else acquire_class caller class_id now p (lookup class_id p.classes)

-- The new slot goes to a waiter, or is left to the acquirer that it was made for.
abbrev pub hand_new : String → Slot → ℕ → Option ℕ → Pool → Pool
hand_new sandbox slot now none p = (serve_waiter sandbox slot now p).0
hand_new sandbox slot now (some caller) p = record p { created = insert caller sandbox p.created }

abbrev pub new_slot : ResourceClass → ℕ → Slot
new_slot c now = record { resource_class = c; state = ready; last_used_at = now }

unfoldable pub create_resolves : ℕ → String → ℕ → Pool → Option Creation → Pool
unfolding serve_waiter reject_waiters
create_resolves ticket sandbox now p none = p
create_resolves ticket sandbox now p (some c) = end_create ticket c (
    if p.is_closed
    then reject_owner c.owner (reject_waiters c.resource_class.id p)
    else hand_new sandbox (new_slot c.resource_class now) now c.owner
        (record p { slots = insert sandbox (new_slot c.resource_class now) p.slots }))

unfoldable pub create_rejects : ℕ → Pool → Option Creation → Pool
unfolding reject_waiters
create_rejects ticket p none = p
create_rejects ticket p (some c) =
    end_create ticket c (reject_owner c.owner (reject_waiters c.resource_class.id p))

-- The acquirer goes on after its slot was made: `return this.#leaseSlot(slot)`.
unfoldable pub take_created : ℕ → ℕ → Pool → Option String → Pool
unfolding lease_slot
take_created caller now p none = p
take_created caller now p (some sandbox) =
    lease_slot sandbox caller now (record p { created = erase caller p.created })
      (lookup sandbox p.slots)

abbrev pub is_held : Phase → Bool
is_held held = true
is_held resetting = false
is_held done = false

abbrev pub is_resetting : Phase → Bool
is_resetting held = false
is_resetting resetting = true
is_resetting done = false

abbrev pub is_open : Phase → Bool
is_open phase = is_held phase || is_resetting phase

abbrev pub is_lease : ℕ → String → Lease → Bool
is_lease caller sandbox l = (l.caller == caller) && (l.sandbox == sandbox)

unfoldable pub set_phase : ℕ → String → Phase → List Lease → List Lease
set_phase caller sandbox phase [] = []
set_phase caller sandbox phase (l ∷ leases) =
    (if is_lease caller sandbox l && is_open l.phase then record l { phase = phase } else l)
    ∷ set_phase caller sandbox phase leases

abbrev pub end_lease : ℕ → String → Pool → Pool
end_lease caller sandbox p = record p { leases = set_phase caller sandbox done p.leases }

-- `release` up to the reset
unfoldable pub release : ℕ → String → Bool → Pool → Pool
unfolding set_phase
release caller sandbox destroys p =
    if not (any (λ l. is_lease caller sandbox l && is_held l.phase) p.leases)
    then p
    else if destroys || p.is_closed
    then destroy sandbox (end_lease caller sandbox p)
    else record p { leases = set_phase caller sandbox resetting p.leases }

abbrev pub exceeds_ready : Slot → Pool → Bool
exceeds_ready slot p = elim slot.resource_class.warm_pool [
  | none ↦ false
  | some policy ↦ ltb policy.max_ready (ready_count slot.resource_class.id p)
]

abbrev pub keep_or_destroy : String → Slot → Pool × Bool → Pool
keep_or_destroy sandbox slot (p, true) = p
keep_or_destroy sandbox slot (p, false) = if exceeds_ready slot p then destroy sandbox p else p

abbrev pub refreshed : Slot → ℕ → Slot
refreshed slot now = record slot { state = ready; last_used_at = now }

-- The slot is ready again, and serves a waiter or stays unless there are too many.
unfoldable pub give_back : String → ℕ → Pool → Option Slot → Pool
unfolding serve_waiter ready_count
give_back sandbox now p none = p
give_back sandbox now p (some slot) = keep_or_destroy sandbox slot (
    serve_waiter sandbox (refreshed slot now) now
      (record p { slots = insert sandbox (refreshed slot now) p.slots }))

-- The end of the reset; `clean` says that it did not throw and was verified.
unfoldable pub reset_resolves : ℕ → String → Bool → ℕ → Pool → Pool
unfolding give_back set_phase
reset_resolves caller sandbox clean now p =
    if not (any (λ l. is_lease caller sandbox l && is_resetting l.phase) p.leases)
    then p
    else if not clean || p.is_closed
    then destroy sandbox (end_lease caller sandbox p)
    else give_back sandbox now (end_lease caller sandbox p) (lookup sandbox p.slots)

-- `ready > policy.maxReady || (ready > policy.minReady && now - slot.lastUsedAt > policy.idleTtlMs)`
abbrev pub is_surplus : ℕ → Pool → Slot → Bool
is_surplus now p slot = elim slot.resource_class.warm_pool [
  | none ↦ false
  | some policy ↦
      let count = ready_count slot.resource_class.id p in
      is_ready slot.state
      && (ltb policy.max_ready count
          || (ltb policy.min_ready count && ltb (slot.last_used_at + policy.idle_ttl_ms) now))
]

abbrev pub drop_surplus : ℕ → String → Pool → Option Slot → Pool
drop_surplus now sandbox p none = p
drop_surplus now sandbox p (some slot) = if is_surplus now p slot then destroy sandbox p else p

-- `maintain` up to the creations
unfoldable pub maintain_destroys : ℕ → List String → Pool → Pool
unfolding ready_count
maintain_destroys now [] p = p
maintain_destroys now (sandbox ∷ sandboxes) p =
    maintain_destroys now sandboxes (drop_surplus now sandbox p (lookup sandbox p.slots))

unfoldable pub begin_creates : ℕ → ResourceClass → Pool → Pool
begin_creates zero c p = p
begin_creates (suc need) c p = begin_creates need c (begin_create c none p)

-- `maintain` for one class
abbrev pub need_of : ResourceClass → Pool → ℕ
need_of c p = elim c.warm_pool [
  | none ↦ 0
  | some policy ↦ policy.min_ready - ready_count c.id p - creating_count c.id p
]

abbrev pub maintain_class : Pool → Option ResourceClass → Pool
maintain_class p none = p
maintain_class p (some c) = if p.is_closed then p else begin_creates (need_of c p) c p

unfoldable pub concat : List (List ℕ) → List ℕ
concat [] = []
concat (xs ∷ xss) = xs ++ concat xss

unfoldable pub close : Pool → Pool
unfolding concat
close p = if p.is_closed then p else record p {
  is_closed = true;
  rejected = concat (values p.waiters) ++ p.rejected;
  waiters = [];
  slots = [];
}

pub data Event : Type 0 where
  acquires : ℕ → String → ℕ → Event
  resolves : ℕ → String → ℕ → Event
  fails : ℕ → Event
  takes : ℕ → ℕ → Event
  releases : ℕ → String → Bool → Event
  resets : ℕ → String → Bool → ℕ → Event
  maintains : ℕ → Event
  creates : String → Event
  closes : Event

unfoldable pub step : Event → Pool → Pool
unfolding acquire create_resolves create_rejects take_created release reset_resolves
    maintain_destroys begin_creates close
step (acquires caller class_id now) p = acquire caller class_id now p
step (resolves ticket sandbox now) p =
    create_resolves ticket sandbox now p (lookup ticket p.creations)
step (fails ticket) p = create_rejects ticket p (lookup ticket p.creations)
step (takes caller now) p = take_created caller now p (lookup caller p.created)
step (releases caller sandbox destroys) p = release caller sandbox destroys p
step (resets caller sandbox clean now) p = reset_resolves caller sandbox clean now p
step (maintains now) p = if p.is_closed then p else maintain_destroys now (keys p.slots) p
step (creates class_id) p = maintain_class p (lookup class_id p.classes)
step closes p = close p

unfoldable pub run : List Event → Pool → Pool
unfolding step
run [] p = p
run (e ∷ events) p = run events (step e p)
