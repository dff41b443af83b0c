-- ===== src/Orders.antt =====
-- internal/orders: the saga's types, the settings, and the service that runs an order through payment
-- and driver assignment.
pub mod Saga
pub mod Service
pub mod Settings
pub mod Paid
pub mod Builder
pub mod Reliable
pub mod Protocol
pub mod Postgres
pub mod Interleaved
