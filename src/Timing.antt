-- ===== src/Timing.antt =====
-- src/timing.
pub mod Sleep
