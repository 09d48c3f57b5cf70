-- ===== src/Cli.antt =====
-- The command line (src/cli/).
pub mod Args
pub mod State
