-- ===== src/Metric.antt =====
-- internal/service/metric: the collectors of capacity, performance and topology metrics.
pub mod Fanout
pub mod Push
pub mod Pipeline
pub mod Types
pub mod Base
pub mod Handle
pub mod Capacity
pub mod Performance
pub mod Topology
pub mod Recorder
pub mod Isolation
