-- ===== src/Reliability.antt =====
-- internal/orders/reliability.go: the circuit breaker, the rate limiter, the retry loop, and the
-- clients that put them together.
pub mod Breaker
pub mod Limiter
pub mod Retry
pub mod Client
mod Examples
