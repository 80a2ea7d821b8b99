-- ===== src/Server.antt =====
-- The server's own commands (crates/sandbox-server/src).
pub mod Seed
