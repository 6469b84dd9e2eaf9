-- ===== src/K8s.antt =====
-- internal/k8s: what the program reads from the Kubernetes API.
pub mod Volumes
pub mod StorageClasses
pub mod Api
