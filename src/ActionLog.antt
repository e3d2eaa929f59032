-- ===== src/ActionLog.antt =====
-- src/action_log.c: the append-only log of actions, one JSON object to a line.
pub mod Escape
pub mod Unescape
pub mod Records
pub mod Last
pub mod Append
pub mod ReadBack
