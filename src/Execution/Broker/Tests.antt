-- ===== src/Execution/Broker/Tests.antt =====
-- The broker's theorems at concrete calls: an executor that counts its runs, and one that throws.
use mathlib.Core.List.{Perm}
use synth_agent_runtime.Prelude.{
  List, [], err, false, keep, list_eq, nat_eq, none, ok, option_eq, pair_eq, refl, some, string_eq,
  suc, true, ℕ, ◌∷◌, ◌≡◌,
}
use synth_agent_runtime.Execution.Effects.{
  Effect, EffectContext, EffectResult, Executor, success, workspace_list,
}
use synth_agent_runtime.Execution.Broker.{
  Receipt, Request, candidates, execute, is_candidate, preferred_of, started_receipt,
}
use synth_agent_runtime.Execution.Broker.Once.{execute_once, execute_twice, repeated}
use synth_agent_runtime.Execution.Broker.Selection.{IsOffered, IsRanked, candidates_lem}
use synth_agent_runtime.Durability.LocalStore.{empty_store}
use synth_agent_runtime.Durability.LocalStore.Monotone.{puts_effect, run}

abbrev counter : Executor ℕ
counter = record {
  id = "synthetic";
  fidelity = 1;
  resource_class_id = none;
  can_execute = λ e c w. (ok true, w);
  execute = λ e c w. (ok success, suc w);
}

abbrev thrower : Executor ℕ
thrower = record counter {
  id = "sandbox";
  fidelity = 10;
  resource_class_id = some "sandbox";
  execute = λ e c w. (err "connection lost", suc w);
}

abbrev context : EffectContext
context = record {
  agent_id = "agent";
  task_id = none;
  workspace_id = "workspace";
  execution_policy = some (record {
    preferred_class = some "sandbox";
    allowed_classes = none;
    min_fidelity = some 1;
    allow_escalation = none;
    project_cell_id = none;
  });
}

abbrev listing : Effect
listing = record { id = "effect"; operation = workspace_list none }

abbrev request : Request
request = record {
  effect = listing;
  context = context;
  min_fidelity = 0;
  started_at = 5;
  ended_at = 7;
  before_claim = [];
  meanwhile = [];
}

abbrev rival : Receipt
rival = started_receipt listing 4

abbrev both : List (Executor ℕ)
both = counter ∷ thrower ∷ []

execute_once_example :
    let (outcome, s', w') = execute both true request (empty_store EffectResult) 0 in
    (execute both true request (run s' (puts_effect rival ∷ [])) w').2 ≡ w'
execute_once_example =
    execute_once both true request request (empty_store EffectResult) 0 (puts_effect rival ∷ [])
      refl

execute_twice_example :
    let (o, s', w') = execute (counter ∷ []) false request (empty_store EffectResult) 0 in
    execute (counter ∷ []) false request s' w' ≡ (repeated "effect" o, s', w')
execute_twice_example =
    execute_twice (counter ∷ []) false request request (empty_store EffectResult) 0 refl refl refl

candidates_lem_example :
    Perm (candidates both listing context 0) (keep (is_candidate context 0) both)
    × ((e : Executor ℕ)
        → (is_candidate context 0 e ≡ true → IsOffered context 0 e)
          × (IsOffered context 0 e → is_candidate context 0 e ≡ true))
    × IsRanked (preferred_of listing context) (candidates both listing context 0)
candidates_lem_example = candidates_lem both listing context 0
