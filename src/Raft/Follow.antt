-- ===== src/Raft/Follow.antt =====
-- A node that has followed the sender of a request of raft/consensus.go, in one record update.
use Prim.Native.String.{String}
use aegis_log.Common.{ℕ, ◌≡◌, arith, ltb, if◌then◌else◌}
use aegis_log.Raft.Types.{RaftNode, follower}
use aegis_log.Raft.Node.{step_down}
use aegis_log.Raft.Handlers.{follow}
use aegis_log.Raft.Log.{IsWellFormed}

abbrev pub joined : RaftNode → ℕ → String → ℕ → RaftNode
joined s term leader_id now = record s {
  role = follower;
  leader_id = leader_id;
  election_reset_event = now;
  current_term = if ltb s.current_term term then term else s.current_term;
  voted_for = if ltb s.current_term term then "" else s.voted_for;
}

-- The step down for a later term and what every accepted request sets come to that.
pub follow-joined :
    (s : RaftNode) (term : ℕ) (leader_id : String) (now : ℕ)
    → follow (if ltb s.current_term term then step_down s term now else s) leader_id now
      ≡ joined s term leader_id now
unfolding step_down
follow-joined s term leader_id now = ground arith

pub joined-IsWellFormed :
    (s : RaftNode) (term : ℕ) (leader_id : String) (now : ℕ)
    → IsWellFormed s
    → IsWellFormed (joined s term leader_id now)
joined-IsWellFormed s term leader_id now w = ground arith
