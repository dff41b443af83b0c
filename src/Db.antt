-- ===== src/Db.antt =====
-- internal/db/orders: the stores of the order path over one Postgres database.
pub mod Sql
pub mod Schema
pub mod Payments
pub mod Sagas
pub mod Drivers
pub mod Integrity
