-- ===== src/Pool.antt =====
-- internal/pool: warm pools of ephemeral runners, and the launcher that the autoscaler shares.
pub mod Access
pub mod Slot
mod Examples
