-- ===== src/Metric/Recorder.antt =====
-- internal/service/metric/metrics_recorder_wrapper.go: instruments, observations and labels.
pub mod Record
pub mod Labels
pub mod Topology
pub mod Updates
