-- ===== src/Metric/Capacity.antt =====
-- internal/service/metric/capacity_metrics.go: capacity by volume, storage group, storage resource
-- pool, array and storage class.
pub mod Group
pub mod Arrays
pub mod Cumulate
pub mod Push
pub mod Collect
