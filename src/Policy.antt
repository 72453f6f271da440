-- ===== src/Policy.antt =====
-- controllers/etcddefragpolicy_controller.go: recurring defragmentation runs.
pub mod Schedule
pub mod Runs
pub mod Reconcile
