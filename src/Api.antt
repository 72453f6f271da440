-- ===== src/Api.antt =====
-- The API types of api/v1alpha2 and the parts of the Kubernetes metadata that the controllers read.
pub mod Meta
pub mod Cluster
pub mod Member
pub mod Defrag
pub mod Policy
