-- ===== src/Trace.antt =====
-- src/policy_trace.c and policy_trace.h: the ring of trace events of playground builds.
pub mod Event
pub mod Ring
pub mod Json
pub mod Host
