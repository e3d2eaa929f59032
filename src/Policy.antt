-- ===== src/Policy.antt =====
-- src/policy.c: the path rules and the decision table of the string bridge.
pub mod Types
pub mod Env
pub mod Workspace
pub mod Sensitive
pub mod Script
pub mod Eval
