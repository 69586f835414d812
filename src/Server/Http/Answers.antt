-- ===== src/Server/Http/Answers.antt =====
-- What the HTTP handlers of cmd/node/main.go answer.
use aegis_log.Common.{◌≤◌, ℕ, ◌+◌, ◌<◌, ◌≡◌, arith, Option, some, List, length, inr}
use native.Mathlib.Decide.{dec_lt}
use aegis_log.Raft.Types.{RaftNode, already_included, raw_string}
use aegis_log.Raft.Log.{IsWellFormed}
use aegis_log.Raft.Compact.Take.{IsSnapshot, take_snapshot-IsSnapshot, take_snapshot_refused}
use aegis_log.Server.State.{NodeServer}
use aegis_log.Server.Http.{
  Response, respond, cannot_snapshot, raft_failed, snapshot_created, handle_http_snapshot_trigger,
}

-- How a POST to the snapshot trigger of `s` ends, which asks for a snapshot at the commit index that it saw. `node` is the node when `TakeSnapshot` locks it, `answered` what the handler leaves and answers, and `later` what others do to the node before it reads the snapshot again.
pub data Triggered {F : Type 0} (later : RaftNode → RaftNode) (s : NodeServer F) (node : RaftNode)
    (state : List ℕ) (answered : Option (NodeServer F × Response)) : Type 0 where
  nothing_committed :
      s.raft_node.commit_index ≡ 0
      → answered ≡ some (s, respond 400 cannot_snapshot)
      → Triggered later s node state answered
  up_to_date :
      0 < s.raft_node.commit_index
      → s.raft_node.commit_index ≤ node.last_included_index
      → answered
        ≡ some (
          record s { raft_node = node },
          respond 500
              (raft_failed (already_included s.raft_node.commit_index node.last_included_index)),
        )
      → Triggered later s node state answered
  taken :
      (after : RaftNode)
      → node.last_included_index < s.raft_node.commit_index
      → IsSnapshot node after s.raft_node.commit_index state
      → answered
        ≡ some (
          record s { raft_node = later after },
          respond 200 (
              snapshot_created
                (later after).last_included_index
                (later after).last_included_term
                (length (later after).log)
                (raw_string s.raft_node.role)),
        )
      → Triggered later s node state answered

module _ {F : Type 0} where
  -- A POST to the snapshot trigger, where the node is well formed when the snapshot is taken, its commit index has not fallen below the one that the handler saw, and that one lies in its log: with commit index 0 the call is refused with status 400, with a snapshot that already reaches the commit index it fails with status 500, both without a change of its own; otherwise the node takes the snapshot at that commit index and the answer has the index, the term and the number of entries that the node has when the handler reads them.
  pub trigger-IsSnapshot :
      (between later : RaftNode → RaftNode) (s : NodeServer F) (state : List ℕ)
      → IsWellFormed (between s.raft_node)
      → s.raft_node.commit_index ≤ (between s.raft_node).commit_index
      → s.raft_node.commit_index
        < (between s.raft_node).last_included_index + length (between s.raft_node).log
      → Triggered later s
          (between s.raft_node)
          state
          (handle_http_snapshot_trigger between later s "POST" state)
  unfolding handle_http_snapshot_trigger
  trigger-IsSnapshot between later s state w kept inside =
      let commit = s.raft_node.commit_index in
      let node = between s.raft_node in
      elim (dec_lt 0 commit) [
        | no none_yet ↦ nothing_committed (omega arith) (ground arith)
        | yes pos ↦ elim (dec_lt node.last_included_index commit) [
          | yes more ↦
              let (after, done, snap) =
                take_snapshot-IsSnapshot node commit state w more kept inside in
              taken after more snap (ground (arith, done))
          | no old ↦
              let refused = take_snapshot_refused node commit state (inr (omega arith)) in
              up_to_date pos (omega arith) (ground (arith, refused, kept))
        ]
      ]
