-- ===== src/Entrypoint.antt =====
-- internal/entrypoint/run.go: the configuration, the loop and the liveness probe.
pub mod Config
pub mod Loop
pub mod Leadership
pub mod Tickers
pub mod Intervals
pub mod PerformanceExports
pub mod Probe
pub mod Startup
