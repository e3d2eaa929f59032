-- ===== src/Tests.antt =====
-- Runs of the definitions on concrete inputs, and the theorems applied to them.
pub mod Machine
pub mod OnPolicy
pub mod OnLog
pub mod OnSupervisor
pub mod OnBeneath
pub mod OnCli
pub mod OnWire
pub mod OnTrace
pub mod OnPacks
pub mod OnShell
pub mod Codec
pub mod OnClients
