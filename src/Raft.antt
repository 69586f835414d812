-- ===== src/Raft.antt =====
-- The consensus engine of raft/consensus.go.
mod Tests
pub mod Types
pub mod Node
pub mod Handlers
pub mod Log
pub mod Election
pub mod Follow
pub mod Apply
pub mod Leader
pub mod Append
pub mod Compact
pub mod Vote
pub mod Commit
pub mod Announce
pub mod Ballot
pub mod Cluster
pub mod Timer
pub mod Transport
