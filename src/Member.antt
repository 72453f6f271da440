-- ===== src/Member.antt =====
-- The member controller, controllers/etcdmember_controller.go.
pub mod Removal
pub mod Pods
pub mod Dial
pub mod Health
pub mod Storage
pub mod Template
pub mod Reconcile
