-- ===== src/Gateway/LanePolicy/Handover.antt =====
-- A slot that is handed over reaches a request that still waits for it.
use synth_agent_runtime.Gateway.LanePolicy.{PriorityLanePolicy}
use synth_agent_runtime.Prelude.{
  All, List, Map, Option, String, [], eqb, false, list_eq, lookup, nat_eq, none, option_eq, pair_eq,
  some, string_eq, ℕ, ◌∷◌, ◌≡◌, ◌≢◌, ◌≤◌,
}
use synth_agent_runtime.Gateway.Lanes.{Queued, remove_ticket}

abbrev Differs : ℕ → Queued → Type 0
Differs t q = eqb q.ticket t ≡ false

-- No two requests of the queue have the same ticket.
abbrev pub IsDistinct : List Queued → Type 0
IsDistinct [] = Unit
IsDistinct (q ∷ qs) = All (Differs q.ticket) qs × IsDistinct qs

-- the queue that is left when a request was taken from it
abbrev left : Option Queued → List Queued → List Queued
left none qs = qs
left (some r) qs = remove_ticket r.ticket qs

-- The ticket has a waiter.
abbrev pub HasWaiter : Map ℕ String → Queued → Type 0
HasWaiter waiters q = lookup q.ticket waiters ≢ none

-- Every queued request has a waiter, and its ticket is its own and was given out.
pub record IsWaiting (waiters : Map ℕ String) (sequence : ℕ) (queue : List Queued) : Type 0 where
  pub waited : All (HasWaiter waiters) queue
  pub distinct : IsDistinct queue
  pub numbered : All (λ q. q.ticket ≤ sequence) queue

abbrev pub AllWait : PriorityLanePolicy → Type 0
AllWait p = IsWaiting p.waiters p.scheduler.sequence p.scheduler.queue
