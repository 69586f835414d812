-- ===== src/Consumer/Offsets.antt =====
-- The saved offsets of consumer/group_coordinator.go: in memory, in the checkpoint file, and after a restart.
pub mod Saved
pub mod Durable
pub mod Restart
