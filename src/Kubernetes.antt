-- ===== src/Kubernetes.antt =====
-- kubernetes_client/: what is modelled of the client of Kubernetes.
pub mod Limit
pub mod Rollout
mod Samples
