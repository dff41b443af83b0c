-- ===== src/Grpc/Status.antt =====
-- The gRPC status errors that internal/adapters/grpc returns.
use orders_go.Common.{String}

pub data Code : Type 0 where
  canceled invalid_argument deadline_exceeded failed_precondition internal : Code

-- `status.Error`
pub record Status : Type 0 where
  pub code : Code
  pub text : String
