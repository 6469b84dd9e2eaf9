-- ===== src/Metric/Performance.antt =====
-- internal/service/metric/performance_metrics.go: performance of volumes and of storage groups.
pub mod Threshold
pub mod SgCache
pub mod SharedCache
pub mod Targets
pub mod Volumes
pub mod StorageGroups
pub mod Push
pub mod Collect
