-- ===== src/Temporal/Correlation/Tests.antt =====
-- The ids and kinds of small inputs.
use synth_agent_runtime.Prelude.{
  [], list_eq, nat_eq, option_eq, pair_eq, refl, some, string_eq, ◌∷◌, ◌≡◌,
}
use synth_agent_runtime.Prelude.Json.{end, field, get_field, object, text}
use synth_agent_runtime.Temporal.Correlation.{
  after_prefix, agent_id_from_workflow_id, non_empty, property, rung_from_args, rung_name,
}

workflow_id_of_agent : agent_id_from_workflow_id (some "agent/agt_123") ≡ some "agt_123"
unfolding agent_id_from_workflow_id after_prefix
workflow_id_of_agent = refl

bare_workflow_id : agent_id_from_workflow_id (some "agt_123") ≡ some "agt_123"
unfolding agent_id_from_workflow_id after_prefix
bare_workflow_id = refl

named_rung :
    rung_from_args
      (some (object (field "config" (object (field "rung" (text "none") end)) end)) ∷ [])
    ≡ some "none"
unfolding rung_from_args property get_field rung_name non_empty
named_rung = refl
