-- ===== src/Main.antt =====
-- cmd/metrics-powermax/main.go: the settings read from the environment, and the program as a whole.
pub mod Atoi
pub mod Settings
pub mod Intervals
pub mod Arrays
pub mod Logging
pub mod Server
pub mod Program
pub mod Updates
