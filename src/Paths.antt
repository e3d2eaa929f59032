-- ===== src/Paths.antt =====
-- src/paths.c: the directories of the supervisor.
pub mod Dirs
pub mod Resolve
