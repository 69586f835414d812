-- ===== src/Raft/Append.antt =====
-- What `HandleAppendEntries` of raft/consensus.go does to a well-formed node.
pub mod Put
pub mod Entries
pub mod Outcome
pub mod Safety
pub mod Accept
