-- ===== src/Supervisor/Lifecycle.antt =====
-- The public operations of supervisor.c.
pub mod Acquire
pub mod Start
pub mod Bind
pub mod Status
pub mod Stop
pub mod Table
pub mod Stopped
pub mod Bound
pub mod Started
