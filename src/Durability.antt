-- ===== src/Durability.antt =====
-- src/durability: the runtime state store, its receipts, and the fenced writes of agents.
pub mod State
pub mod LocalStore
pub mod AgentWrites
