-- ===== src/Cli.antt =====
-- src/phronesis.c: the command line around a supervisor. What it prints to stdout is part of the
-- outcome; the usage text and the error messages on stderr are not.
pub mod Arguments
pub mod Commands
pub mod Outcomes
