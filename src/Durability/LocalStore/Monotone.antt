-- ===== src/Durability/LocalStore/Monotone.antt =====
-- A receipt never goes back: neither the status of an effect nor a committed command.
use synth_agent_runtime.Prelude.{
  List, Option, String, [], arith, eq_iff, false, list_eq, lookup-insert, lookup-insert_self,
  nat_eq, none, option_eq, some, string_eq, ℕ, ◌<◌, ◌∷◌, ◌≡◌, ◌≤◌,
}
use synth_agent_runtime.Durability.State.{
  DurableCommandRecord, DurableEffectRecord, committed, failed, fence_of, started,
}
use synth_agent_runtime.Durability.LocalStore.{
  LocalRuntimeStateStore, claim_command, claim_effect, get_command, get_effect, put_command,
  put_effect,
}

-- The calls that write commands and effects.
pub data Call (R : Type 0) : Type 0 where
  puts_command claims_command : DurableCommandRecord → Call R
  puts_effect claims_effect : DurableEffectRecord R → Call R

-- The command is committed under a fencing token of at least `f`.
abbrev pub IsCommitted : ℕ → Option DurableCommandRecord → Type 0
IsCommitted f none = ⊥
IsCommitted f (some c) = (c.status ≡ committed) × (f ≤ fence_of c)

module _ {R : Type 0} where
  abbrev pub step : LocalRuntimeStateStore R → Call R → LocalRuntimeStateStore R
  step s (puts_command c) = put_command s c
  step s (claims_command c) = (claim_command s c).1
  step s (puts_effect e) = put_effect s e
  step s (claims_effect e) = (claim_effect s e).1

  abbrev pub run : LocalRuntimeStateStore R → List (Call R) → LocalRuntimeStateStore R
  run s [] = s
  run s (c ∷ cs) = run (step s c) cs

  -- How far an effect is resolved: not at all, uncertain, failed, committed.
  abbrev pub rank : Option (DurableEffectRecord R) → ℕ
  rank none = 0
  rank (some e) = elim e.status [ started ↦ 1 | failed ↦ 2 | committed ↦ 3 ]

  rank-step :
      (s : LocalRuntimeStateStore R) (c : Call R) (i : String)
      → rank (get_effect s i) ≤ rank (get_effect (step s c) i)
  unfolding put_command claim_command put_effect claim_effect get_effect
  rank-step s (puts_command c) i = ground arith
  rank-step s (claims_command c) i = ground arith
  rank-step s (puts_effect e) i = ground (arith, lookup-insert e.id i e s.effects, eq_iff e.id i)
  rank-step s (claims_effect e) i = ground (arith, lookup-insert e.id i e s.effects, eq_iff e.id i)

  -- Whatever records are put or claimed, in any order, an effect never falls back from committed to
  -- failed, started or absent, from failed to started or absent, or from started to absent.
  pub rank-run :
      (s : LocalRuntimeStateStore R) (cs : List (Call R)) (i : String)
      → rank (get_effect s i) ≤ rank (get_effect (run s cs) i)
  rank-run s [] i = omega arith
  rank-run s (c ∷ cs) i = omega (arith, rank-step s c i, rank-run (step s c) cs i)

  IsCommitted-step :
      (s : LocalRuntimeStateStore R) (c : Call R) (i : String) (f : ℕ)
      → IsCommitted f (get_command s i)
      → IsCommitted f (get_command (step s c) i)
  unfolding put_command claim_command put_effect claim_effect get_command
  IsCommitted-step s (puts_command c) i f h =
      ground (arith, lookup-insert c.id i c s.commands, eq_iff c.id i)
  IsCommitted-step s (claims_command c) i f h =
      ground (arith, lookup-insert c.id i c s.commands, eq_iff c.id i)
  IsCommitted-step s (puts_effect e) i f h = ground arith
  IsCommitted-step s (claims_effect e) i f h = ground arith

  -- A command that is committed under fencing token `f` stays committed, under a token of at least
  -- `f`, whatever records are put or claimed afterwards.
  pub IsCommitted-run :
      (s : LocalRuntimeStateStore R) (cs : List (Call R)) (i : String) (f : ℕ)
      → IsCommitted f (get_command s i)
      → IsCommitted f (get_command (run s cs) i)
  IsCommitted-run s [] i f h = h
  IsCommitted-run s (c ∷ cs) i f h = IsCommitted-run (step s c) cs i f (IsCommitted-step s c i f h)

  -- A claim, granted or not, leaves a receipt.
  pub rank-claim :
      (s : LocalRuntimeStateStore R) (e : DurableEffectRecord R)
      → 0 < rank (get_effect (claim_effect s e).1 e.id)
  unfolding claim_effect get_effect
  rank-claim s e = ground (arith, lookup-insert_self e.id e s.effects)

  claim_refused :
      (s : LocalRuntimeStateStore R) (e : DurableEffectRecord R)
      → 0 < rank (get_effect s e.id)
      → (claim_effect s e).0.claimed ≡ false
  unfolding claim_effect get_effect
  claim_refused s e h = ground arith

  -- An effect is claimed at most once: after a claim, and whatever records are put or claimed since,
  -- a later claim of the same effect is refused.
  pub claim_once :
      (s : LocalRuntimeStateStore R) (e e' : DurableEffectRecord R) (cs : List (Call R))
      → e'.id ≡ e.id
      → (claim_effect (run (claim_effect s e).1 cs) e').0.claimed ≡ false
  claim_once s e e' cs same =
      claim_refused _ e'
        (rw same (omega (arith, rank-claim s e, rank-run (claim_effect s e).1 cs e.id)))
