-- ===== src/Execution.antt =====
-- src/execution: effects, executors and the broker that runs each effect at most once.
pub mod Effects
pub mod TextReplace
pub mod Synthetic
pub mod WarmPool
pub mod Broker
