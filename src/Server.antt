-- ===== src/Server.antt =====
-- The server that drives the plugins (server/).
pub mod Float
pub mod Batch
pub mod World
pub mod Runner
pub mod Service
