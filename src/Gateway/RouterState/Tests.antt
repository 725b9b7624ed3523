-- ===== src/Gateway/RouterState/Tests.antt =====
-- A route that is bound until time 10.
use synth_agent_runtime.Prelude.{[], list_eq, nat_eq, option_eq, pair_eq, string_eq}
use synth_agent_runtime.Gateway.RouterState.{RouterStateStore}

abbrev empty_state : RouterStateStore
empty_state = record { health = []; affinity = [] }
