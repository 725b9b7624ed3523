-- ===== src/Gateway/Tenants/Tests.antt =====
-- The policies' theorems at small inputs.
use synth_agent_runtime.Prelude.{
  List, [], list_eq, nat_eq, none, option_eq, pair_eq, refl, some, string_eq, ◌∷◌, ◌≤◌,
}
use synth_agent_runtime.Prelude.Int.{pos}
use synth_agent_runtime.Gateway.Tenants.{GatewayPrincipal, limit_of}
use synth_agent_runtime.Gateway.Tenants.RateLimit.{Arrival, granted, granted_within_limit}

abbrev principal : GatewayPrincipal
principal = record {
  tenant_id = "tenant";
  subject = "user";
  allowed_models = none;
  requests_per_minute = some (pos 1);
  lane = none;
}

abbrev arrivals : List Arrival
arrivals =
    record { principal = principal; now = 60001 }
    ∷ record { principal = principal; now = 60002 }
    ∷ []

granted_within_limit_example : granted "tenant" [] arrivals ≤ 1
unfolding limit_of
granted_within_limit_example =
    granted_within_limit 1 "tenant" 1 [] arrivals ((refl, λ e. refl), ((refl, λ e. refl), tt))
