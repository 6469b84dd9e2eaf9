-- ===== src/Pmax.antt =====
-- internal/k8spmax/k8spmax.go: the arrays of a proxy configuration and their connections.
pub mod Arrays
pub mod Connect
pub mod Connected
