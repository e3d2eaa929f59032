-- ===== src/Wire.antt =====
-- src/capnp_api.c: the checks on Cap'n Proto messages, with the codec as a parameter.
pub mod Agents
pub mod Checks
pub mod Admission
pub mod Admit
pub mod Status
pub mod Message
pub mod Emit
pub mod Events
pub mod Shell
