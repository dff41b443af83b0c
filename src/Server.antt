-- ===== src/Server.antt =====
-- cmd/server: the configuration, the location store and the order of start and shutdown.
pub mod Config
pub mod LocationStore
pub mod Start
pub mod Ready
