-- ===== src/Upload.antt =====
-- experiments/managed_sketch/fmgo_upload.py: staging a capsule in a device's RAM, committing it, and
-- reading the outcome.
pub mod Session
pub mod Snapshot
pub mod Transfer
mod Trace
pub mod Plan
pub mod Order
pub mod Commits
pub mod Answers
pub mod Success
mod Tests
