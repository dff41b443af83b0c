-- ===== src/Observability.antt =====
-- internal/observability: the call metrics.
pub mod Metrics
pub mod Endpoint
