-- ===== src/Workspace.antt =====
-- src/workspace: snapshots of a workspace and how they are written.
pub mod Snapshot
pub mod Codec
pub mod Paths
pub mod Links
pub mod Memory
pub mod Diff
pub mod Transaction
pub mod Export
