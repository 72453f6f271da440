-- ===== src/Tests.antt =====
-- Concrete objects, and the theorems applied to them.
pub mod Fixtures
pub mod Shared
pub mod Clusters
pub mod Defrags
mod Answers
mod Passes
mod Nodes
mod Policies
