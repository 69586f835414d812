-- ===== src/Lib.antt =====
-- Aegis, a replicated commit log.
--
-- The program is a consensus node (raft/consensus.go) whose committed entries are appended to a
-- write-ahead log, behind a TCP protocol of checksummed frames (network/binary_protocol.go).
--
-- Common        lists, tests, fixed-width words and big-endian bytes, results, and faults: a Go
--               run-time panic is the `none` of an Option (Common/Faults)
-- Network/Frame EncodeFrame, DecodeFrame, io.ReadFull and the IEEE CRC32 of
--               network/binary_protocol.go; the reader is the list of bytes that it has left
-- Storage/Index Append and Lookup of storage/index.go over the mapped bytes, with sort.Search
-- Storage/Segment Append, ReadAt and recover of a Segment of storage/wal_segment.go over its mapped
--               bytes
-- Storage/Wal   NewSegment over the contents of its files, and the WAL of rolling segments (OpenWAL,
--               Append, ReadAt, Close); the system is a function from a base offset to what the two
--               files hold, or none where a call fails
-- Raft/Types    roles, messages and RaftNode of raft/consensus.go; a Go map of numbers is a function
--               that gives 0 for a missing key
-- Raft/Node     the log (lastLogIndex, getLogTerm, getLogSlice), stepDown, broadcastAppendEntries,
--               becomeLeader, checkAndUpdateCommitIndex, NewRaftNode
-- Raft/Handlers HandleRequestVote, HandleAppendEntries, HandleInstallSnapshot, TakeSnapshot
-- Raft/Election runPreVote, startElection, the goroutines that handle replies, Propose, and the
--               applier; each is cut where the code unlocks the node to wait, and the parts are steps
--               that come in any order (Raft/Ballot)
-- Raft/Log      what a well-formed node is; the other modules of Raft prove what the steps do
-- Raft/Timer    randomizedTimeout, runElectionLoop and Stop
-- Raft/Cluster  nodes with the votes between them; a step of the cluster is a step of one node
-- Raft/Transport the dispatch and the sends of raft/tcp_transport.go, between JSON values
-- Consumer      the groups of consumer/group_coordinator.go; Consumer/Share is about rebalancing,
--               Consumer/Recover is recoverOffsets, and Consumer/Offsets compares the checkpoint file
--               with the offsets in memory. encoding/json is a parameter
-- Server        cmd/node/main.go: Server/State and Server/Start are the NodeServer, Server/Client is
--               handleClientConn, Server/Http the HTTP handlers, Server/Telemetry getTelemetry,
--               Server/Latency the LatencyTracker, and Server/Commit the callback that stores each
--               committed entry in the write-ahead log
--
-- Numbers are natural numbers; uint64 operations that can wrap are taken modulo 2 ^ 64, and a
-- conversion to int that would be negative faults. Time is the argument `now`. The messages that
-- goroutines send are returned as a list. The applier runs on fuel, the distance from lastApplied to
-- commitIndex, which is the number of its rounds; the loops of recover and of a segment's ReadAt
-- run on fuel, the length of the bytes, and take a byte at least in a round. A latency sample is of any
-- type with a test for `>`; the index int(float64(n) * 0.99) is computed on whole numbers, rounded to
-- 53 bits, with fuel 128, above the 117 bits of the largest product.
--
-- Not modelled: sockets, TLS, memory mapping, the HTTP server itself, the load generator, benchmarks
-- and the user interface, which are calls of libraries; goroutines and locks beyond the order of steps;
-- a restart of a node while its cluster runs.
pub mod Common
pub mod Network
pub mod Raft
pub mod Storage
pub mod Consumer
pub mod Server
