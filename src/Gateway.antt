-- ===== src/Gateway.antt =====
-- src/inference/gateway: who may run, and when: priority lanes and the policies for tenants, and the
-- store of the continuations of their calls.
pub mod Lanes
pub mod LanePolicy
pub mod Tenants
pub mod Continuations
pub mod RouterState
