-- ===== src/Examples.antt =====
-- The theorems about the orders, the stores, the locations and the metrics at concrete inputs.
mod OrderRuns
mod StoreRuns
mod IngestRuns
mod FaultRuns
mod ReliableRuns
mod ServerRuns
mod StartRuns
mod InterleavedRuns
mod ReturnRuns
