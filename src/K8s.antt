-- ===== src/K8s.antt =====
-- src/operator/core/k8sHandler.go and its copy src/service/core/k8sHandler.go, which differ in the
-- resource that they watch.
pub mod Handler
pub mod Requests
pub mod Watch
