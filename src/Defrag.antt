-- ===== src/Defrag.antt =====
-- controllers/etcddefrag_controller.go: one-shot defragmentation runs.
pub mod World
pub mod Rule
pub mod Plan
pub mod Queue
pub mod Gate
pub mod Finish
pub mod Run
