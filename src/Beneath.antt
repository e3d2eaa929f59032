-- ===== src/Beneath.antt =====
-- src/beneath.c: opening a path only below a directory that is open already.
pub mod Root
pub mod Rel
pub mod Walk
