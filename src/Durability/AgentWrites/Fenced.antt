-- ===== src/Durability/AgentWrites/Fenced.antt =====
-- A fenced write is never made without its fence.
use synth_agent_runtime.Prelude.{
  Bool, Option, false, list_eq, nat_eq, none, ok, option_eq, pair_eq, refl, some, string_eq, true,
  ◌≡◌,
}
use synth_agent_runtime.Durability.AgentWrites.{
  AgentSnapshot, AgentWriteFence, DurabilityProvider, done, on_fenced, persist_agent_snapshot,
  persist_fenced,
}

module _ {S : Type 0} where
  on_fenced_lem :
      (snapshot : AgentSnapshot) (fence : AgentWriteFence) (p : Bool × S)
      → (on_fenced snapshot fence p).0 ≡ ok done
      → p ≡ (true, (on_fenced snapshot fence p).1)
  unfolding on_fenced
  on_fenced_lem snapshot fence (true, s) h = refl
  on_fenced_lem snapshot fence (false, s) h = absurd (cc)

  -- What it takes for a fenced write to succeed: the provider can write under a fence, and that
  -- write took place and was accepted.
  abbrev pub WasFenced :
      Option (AgentSnapshot → AgentWriteFence → S → Bool × S)
      → AgentSnapshot
      → AgentWriteFence
      → S
      → S
      → Type 0
  WasFenced none snapshot fence s s' = ⊥
  WasFenced (some put) snapshot fence s s' = put snapshot fence s ≡ (true, s')

  persist_fenced_lem :
      (o : Option (AgentSnapshot → AgentWriteFence → S → Bool × S)) (snapshot : AgentSnapshot)
      (fence : AgentWriteFence) (s : S)
      → (persist_fenced o snapshot fence s).0 ≡ ok done
      → WasFenced o snapshot fence s (persist_fenced o snapshot fence s).1
  unfolding persist_fenced
  persist_fenced_lem none snapshot fence s h = absurd (cc)
  persist_fenced_lem (some put) snapshot fence s h =
      on_fenced_lem snapshot fence (put snapshot fence s) h

  -- A write with a fence that succeeds was made under that fence and accepted: it never falls back to
  -- a write without one, also when the provider knows no fences.
  pub persist_agent_snapshot_lem :
      (d : DurabilityProvider S) (snapshot : AgentSnapshot) (fence : AgentWriteFence) (s : S)
      → (persist_agent_snapshot d snapshot (some fence) s).0 ≡ ok done
      → WasFenced d.put_agent_fenced snapshot fence s
          (persist_agent_snapshot d snapshot (some fence) s).1
  unfolding persist_agent_snapshot
  persist_agent_snapshot_lem d snapshot fence s h =
      persist_fenced_lem d.put_agent_fenced snapshot fence s h
