-- ===== src/Server.antt =====
-- server: connections of the TDS gateway.
pub mod Negotiate
pub mod Registry
