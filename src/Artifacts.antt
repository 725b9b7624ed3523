-- ===== src/Artifacts.antt =====
-- src/artifacts: the content-addressed blob store, the view of it that guards access, and the index
-- of what was made from what.
pub mod Blobs
pub mod Guard
pub mod Provenance
