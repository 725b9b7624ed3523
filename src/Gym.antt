-- ===== src/Gym.antt =====
-- src/gym: the scoring of patches.
pub mod Patch
