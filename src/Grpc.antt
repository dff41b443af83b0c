-- ===== src/Grpc.antt =====
-- internal/adapters/grpc, the two servers, and the interceptors before them.
pub mod Status
pub mod OrderServer
pub mod LocationServer
pub mod Interceptors
