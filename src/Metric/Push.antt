-- ===== src/Metric/Push.antt =====
-- The `push…` functions of internal/service/metric behind the worker pool: one goroutine makes each
-- call of the recorder, sends a name on the result channel if the call succeeds, and calls
-- `wg.Done`; behind the last one the channel is closed.
pub mod Stream
pub mod Batch
