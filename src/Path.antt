-- ===== src/Path.antt =====
-- Lexical paths: the components of a path, by which the checks on paths are specified.
pub mod Components
pub mod Lexical
