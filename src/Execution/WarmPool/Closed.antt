-- ===== src/Execution/WarmPool/Closed.antt =====
-- What a pool that was closed still does.
use synth_agent_runtime.Prelude.{
  Bool, List, Map, Option, String, [], any, ap, arith, erase, false, if_elim, length, list_eq,
  lookup, nat_eq, none, not, option_eq, pair_eq, refl, some, string_eq, suc, true, ℕ, ◌&&◌, ◌||◌,
  ◌∙◌, ◌∷◌, ◌≡◌,
}
use synth_agent_runtime.Execution.WarmPool.{
  Creation, Event, Lease, Phase, Pool, ResourceClass, Slot, acquire, acquires, begin_creates, close,
  closes, create_rejects, create_resolves, creates, destroy, done, end_create, end_lease, fails,
  is_held, is_lease, is_ready, is_resetting, lease_ready, lease_slot, maintain_class, maintains,
  need_of, reject, reject_owner, reject_waiters, release, releases, reset_resolves, resets,
  resetting, resolves, run, set_phase, step, take_created, takes,
}

-- A closed pool has no slot and no waiter, and gave out the leases `given`, of which some may have
-- been given back since.
abbrev pub IsShut : ℕ → Pool → Type 0
IsShut given p =
    (p.is_closed ≡ true) × (p.slots ≡ []) × (p.waiters ≡ []) × (length p.leases ≡ given)

length-set_phase :
    (caller : ℕ) (sandbox : String) (phase : Phase) (leases : List Lease)
    → length (set_phase caller sandbox phase leases) ≡ length leases
unfolding set_phase
length-set_phase caller sandbox phase [] = refl
length-set_phase caller sandbox phase (l ∷ leases) =
    ap suc (length-set_phase caller sandbox phase leases)

erase_all : {V : Type 0} (k : String) (m : Map String V) → m ≡ [] → erase k m ≡ []
unfolding erase
erase_all k m h = rw h refl

module _ (given : ℕ) where
  open_lem : (p : Pool) → IsShut given p → p.is_closed ≡ false → ⊥
  open_lem p v f = ground (arith, v.0)

  IsShut-lease_slot :
      (sandbox : String) (caller now : ℕ) (p : Pool) (found : Option Slot)
      → IsShut given p
      → IsShut given (lease_slot sandbox caller now p found)
  unfolding lease_slot
  IsShut-lease_slot sandbox caller now p none v = v
  IsShut-lease_slot sandbox caller now p (some slot) v =
      if_elim (IsShut given) (p.is_closed || not (is_ready slot.state)) (reject caller p)
        (lease_ready sandbox slot caller now p) (λ _. v) (λ f. absurd (ground (arith, v.0)))

  IsShut-reject_waiters :
      (class_id : String) (owner : Option ℕ) (p : Pool)
      → IsShut given p
      → IsShut given (reject_owner owner (reject_waiters class_id p))
  unfolding reject_waiters
  IsShut-reject_waiters class_id none p v = (v.0, v.1, erase_all class_id p.waiters v.2, v.3)
  IsShut-reject_waiters class_id (some caller) p v =
      (v.0, v.1, erase_all class_id p.waiters v.2, v.3)

  IsShut-create_resolves :
      (ticket : ℕ) (sandbox : String) (now : ℕ) (p : Pool) (found : Option Creation)
      → IsShut given p
      → IsShut given (create_resolves ticket sandbox now p found)
  unfolding create_resolves
  IsShut-create_resolves ticket sandbox now p none v = v
  IsShut-create_resolves ticket sandbox now p (some c) v =
      if_elim (λ r. IsShut given (end_create ticket c r)) p.is_closed _ _
        (λ _. IsShut-reject_waiters c.resource_class.id c.owner p v) (λ f. absurd (open_lem p v f))

  IsShut-create_rejects :
      (ticket : ℕ) (p : Pool) (found : Option Creation)
      → IsShut given p
      → IsShut given (create_rejects ticket p found)
  unfolding create_rejects
  IsShut-create_rejects ticket p none v = v
  IsShut-create_rejects ticket p (some c) v = IsShut-reject_waiters c.resource_class.id c.owner p v

  IsShut-take_created :
      (caller now : ℕ) (p : Pool) (found : Option String)
      → IsShut given p
      → IsShut given (take_created caller now p found)
  unfolding take_created
  IsShut-take_created caller now p none v = v
  IsShut-take_created caller now p (some sandbox) v =
      IsShut-lease_slot sandbox caller now (record p { created = erase caller p.created })
        (lookup sandbox p.slots) v

  -- A lease that is given back to a closed pool, before or after its reset, is ended.
  IsShut-ended :
      (caller : ℕ) (sandbox : String) (p : Pool)
      → IsShut given p
      → IsShut given (destroy sandbox (end_lease caller sandbox p))
  IsShut-ended caller sandbox p v =
      (v.0, erase_all sandbox p.slots v.1, v.2, length-set_phase caller sandbox done p.leases ∙ v.3)

  IsShut-release :
      (caller : ℕ) (sandbox : String) (destroys : Bool) (p : Pool)
      → IsShut given p
      → IsShut given (release caller sandbox destroys p)
  unfolding release
  IsShut-release caller sandbox destroys p v =
      if_elim (IsShut given)
        (not (any (λ l. is_lease caller sandbox l && is_held l.phase) p.leases)) p _ (λ _. v)
        (λ _.
          if_elim (IsShut given) (destroys || p.is_closed) _ _
            (λ _. IsShut-ended caller sandbox p v)
            (λ _. (v.0, v.1, v.2, length-set_phase caller sandbox resetting p.leases ∙ v.3)))

  IsShut-reset_resolves :
      (caller : ℕ) (sandbox : String) (clean : Bool) (now : ℕ) (p : Pool)
      → IsShut given p
      → IsShut given (reset_resolves caller sandbox clean now p)
  unfolding reset_resolves
  IsShut-reset_resolves caller sandbox clean now p v =
      if_elim (IsShut given)
        (not (any (λ l. is_lease caller sandbox l && is_resetting l.phase) p.leases)) p _ (λ _. v)
        (λ _.
          if_elim (IsShut given) (not clean || p.is_closed) _ _
            (λ _. IsShut-ended caller sandbox p v) (λ f. absurd (ground (arith, v.0))))

  IsShut-maintain_class :
      (p : Pool) (found : Option ResourceClass)
      → IsShut given p
      → IsShut given (maintain_class p found)
  IsShut-maintain_class p none v = v
  IsShut-maintain_class p (some c) v =
      if_elim (IsShut given) p.is_closed p (begin_creates (need_of c p) c p) (λ _. v)
        (λ f. absurd (open_lem p v f))

  IsShut-step : (e : Event) (p : Pool) → IsShut given p → IsShut given (step e p)
  unfolding step acquire close
  IsShut-step (acquires caller class_id now) p v =
      if_elim (IsShut given) p.is_closed (reject caller p) _ (λ _. v) (λ f. absurd (open_lem p v f))
  IsShut-step (resolves ticket sandbox now) p v =
      IsShut-create_resolves ticket sandbox now p (lookup ticket p.creations) v
  IsShut-step (fails ticket) p v = IsShut-create_rejects ticket p (lookup ticket p.creations) v
  IsShut-step (takes caller now) p v = IsShut-take_created caller now p (lookup caller p.created) v
  IsShut-step (releases caller sandbox destroys) p v = IsShut-release caller sandbox destroys p v
  IsShut-step (resets caller sandbox clean now) p v =
      IsShut-reset_resolves caller sandbox clean now p v
  IsShut-step (maintains now) p v =
      if_elim (IsShut given) p.is_closed p _ (λ _. v) (λ f. absurd (open_lem p v f))
  IsShut-step (creates class_id) p v = IsShut-maintain_class p (lookup class_id p.classes) v
  IsShut-step closes p v =
      if_elim (IsShut given) p.is_closed p _ (λ _. v) (λ f. absurd (open_lem p v f))

  IsShut-run : (events : List Event) (p : Pool) → IsShut given p → IsShut given (run events p)
  unfolding run
  IsShut-run [] p v = v
  IsShut-run (e ∷ events) p v = IsShut-run events (step e p) (IsShut-step e p v)

-- After an open pool is closed, and through any events that follow, also creations and resets that
-- were in progress, it has no slot and no waiter, and gives out no further lease.
pub run-close :
    (p : Pool) (events : List Event)
    → p.is_closed ≡ false
    → IsShut (length p.leases) (run events (close p))
unfolding close
run-close p events o = rw o (IsShut-run (length p.leases) events _ (refl, refl, refl, refl))
