-- ===== src/Pack.antt =====
-- src/policy_janet.c: policy packs. The Janet interpreter, the codec and the files are parameters.
pub mod Paths
pub mod Files
pub mod Listing
pub mod Spec
pub mod Compile
pub mod Image
pub mod ImageMain
pub mod Load
pub mod Compose
pub mod View
pub mod Shell
