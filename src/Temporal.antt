-- ===== src/Temporal.antt =====
-- integrations/temporal: the durable workflows.
pub mod Failures
pub mod Correlation
pub mod Agent
