-- ===== src/Reliability/Examples.antt =====
-- The theorems about internal/orders/reliability.go at concrete inputs.
mod BreakerRuns
mod LimiterRuns
mod RetryRuns
mod ClientRuns
mod RecoveryRuns
