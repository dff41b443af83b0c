-- ===== src/Go.antt =====
-- What the program uses of the Go language and its standard library.
pub mod Int64
pub mod Float64
pub mod Errors
pub mod Effects
pub mod Partial
