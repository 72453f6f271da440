-- ===== src/Cluster.antt =====
-- The cluster controller, controllers/etcdcluster_controller.go: the target it latches, the health
-- it reports, the disruption budget it keeps, the votes it follows and the step down.
pub mod Calls
pub mod Bootstrap
pub mod Join
pub mod Discovery
pub mod Auth
pub mod ScaleUp
pub mod Target
pub mod Latch
pub mod Pdb
pub mod Health
pub mod Voters
pub mod ScaleDown
pub mod Reconcile
