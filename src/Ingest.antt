-- ===== src/Ingest.antt =====
-- internal/ingest: locations, and the chain of publishers and stores that they go through.
pub mod Location
pub mod Stores
pub mod Redis
