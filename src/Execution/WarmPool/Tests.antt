-- ===== src/Execution/WarmPool/Tests.antt =====
-- A pool of one class: a caller creates a sandbox, gives it back, and another one leases it.
use synth_agent_runtime.Prelude.{
  List, Map, String, [], any, erase, false, find, insert, keep, length, list_eq, lookup, nat_eq,
  option_eq, pair_eq, refl, some, string_eq, true, ◌∷◌, ◌≡◌, ◌≤◌,
}
use synth_agent_runtime.Execution.WarmPool.{
  Event, ResourceClass, acquires, close, done, held, new_pool, releases, resets, resolves, run,
  takes,
}
use synth_agent_runtime.Execution.WarmPool.Exclusive.{allowed, outstanding, run-IsExclusive}
use synth_agent_runtime.Execution.WarmPool.Closed.{IsShut, run-close}

abbrev small : ResourceClass
small = record {
  id = "small";
  warm_pool = some (record { min_ready = 0; max_ready = 1; max_total = 1; idle_ttl_ms = 100 });
}

abbrev classes : Map String ResourceClass
classes = ("small", small) ∷ []

abbrev some_events : List Event
some_events =
    acquires 1 "small" 0
    ∷ resolves 0 "sandbox" 5
    ∷ takes 1 6
    ∷ acquires 2 "small" 7
    ∷ releases 1 "sandbox" false
    ∷ resets 1 "sandbox" true 9
    ∷ []

run-IsExclusive_example :
    (outstanding "sandbox" (run some_events (new_pool classes)).leases ≤ 1)
    × (outstanding "sandbox" (run some_events (new_pool classes)).leases
        ≤ allowed (lookup "sandbox" (run some_events (new_pool classes)).slots))
unfolding run lookup find keep
run-IsExclusive_example =
    run-IsExclusive classes some_events "sandbox" (tt, ((tt), (tt, (tt, (tt, (tt, tt))))))

-- The waiter has the sandbox.
leased_to_waiter :
    (run some_events (new_pool classes)).leases
    ≡ record { caller = 2; sandbox = "sandbox"; phase = held }
      ∷ record { caller = 1; sandbox = "sandbox"; phase = done }
      ∷ []
unfolding run lookup any find keep insert erase
leased_to_waiter = refl

run-close_example : IsShut (length (run some_events (new_pool classes)).leases) (
    run
      (acquires 3 "small" 10 ∷ releases 2 "sandbox" false ∷ [])
      (close (run some_events (new_pool classes))))
unfolding run lookup any find keep insert erase
run-close_example =
    run-close (run some_events (new_pool classes))
      (acquires 3 "small" 10 ∷ releases 2 "sandbox" false ∷ []) refl
