-- ===== src/Supervisor.antt =====
-- src/supervisor.c: the agents that the supervisor runs, its slots in memory and on disk.
pub mod Types
pub mod Ids
pub mod SlotFile
pub mod Slots
pub mod Runs
pub mod Process
pub mod Lifecycle
pub mod Open
pub mod Check
