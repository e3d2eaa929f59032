-- ===== src/Clients.antt =====
-- Programs and bindings that call the library: the binding for Rust, the exporter of messages and the
-- web API of the playground, and the example.
pub mod Message
pub mod Encode
pub mod Rust
pub mod Export
pub mod Playground
pub mod Minimal
