-- ===== src/Service.antt =====
-- internal/service: the service object, its self-metrics and the instances of the collectors.
pub mod Clients
pub mod Observability
pub mod Instances
pub mod Collectors
pub mod Exports
