-- ===== src/Raft/Types.antt =====
-- raft/consensus.go: roles, log entries, messages, and the state of a node.
use Prim.Native.String.{String}
use aegis_log.Common.{ℕ, Bool, true, false, Option, List}

pub data NodeRole : Type 0 where
  follower candidate leader : NodeRole

abbrev pub is_follower : NodeRole → Bool
is_follower follower = true
is_follower _ = false

abbrev pub is_candidate : NodeRole → Bool
is_candidate candidate = true
is_candidate _ = false

abbrev pub is_leader : NodeRole → Bool
is_leader leader = true
is_leader _ = false

-- `String`, and `RawString`.
unfoldable pub role_string : NodeRole → String
role_string follower = "LEADER"
role_string candidate = "CANDIDATE"
role_string leader = "LEADER"

unfoldable pub raw_string : NodeRole → String
raw_string follower = "FOLLOWER"
raw_string candidate = "CANDIDATE"
raw_string leader = "LEADER"

pub data RaftError : Type 0 where
  not_leader proposal_failed node_stopped proposal_timeout : RaftError
  above_commit already_included beyond_log : ℕ → ℕ → RaftError

-- `none` is a nil slice, which the applier skips; numbers are uint64.
pub record LogEntry : Type 0 where
  pub index : ℕ
  pub term : ℕ
  pub payload : Option (List ℕ)

pub record RequestVoteArgs : Type 0 where
  pub term : ℕ
  pub candidate_id : String
  pub last_log_index : ℕ
  pub last_log_term : ℕ
  pub is_pre_vote : Bool

pub record RequestVoteReply : Type 0 where
  pub term : ℕ
  pub vote_granted : Bool

pub record AppendEntriesArgs : Type 0 where
  pub term : ℕ
  pub leader_id : String
  pub prev_log_index : ℕ
  pub prev_log_term : ℕ
  pub entries : List LogEntry
  pub leader_commit : ℕ

pub record AppendEntriesReply : Type 0 where
  pub term : ℕ
  pub success : Bool
  pub match_index : ℕ

pub record InstallSnapshotArgs : Type 0 where
  pub term : ℕ
  pub leader_id : String
  pub last_included_index : ℕ
  pub last_included_term : ℕ
  pub state : List ℕ

pub record InstallSnapshotReply : Type 0 where
  pub term : ℕ

-- The callbacks are kept as whether they are set; times are in milliseconds.
pub record Config : Type 0 where
  pub id : String
  pub peers : List String
  pub election_min_ms : ℕ
  pub election_max_ms : ℕ
  pub heartbeat_interval : ℕ
  pub on_commit : Bool
  pub on_restore_snapshot : Bool
  pub initial_commit_index : ℕ

-- `next_index` and `match_index` give 0 for a key that is not in the Go map. `commit_notify` counts what waits in the channel of that name, which holds 100.
pub record RaftNode : Type 0 where
  pub id : String
  pub peers : List String
  pub cfg : Config
  pub current_term : ℕ
  pub voted_for : String
  pub log : List LogEntry
  pub commit_index : ℕ
  pub last_applied : ℕ
  pub role : NodeRole
  pub leader_id : String
  pub last_included_index : ℕ
  pub last_included_term : ℕ
  pub last_snapshot_data : List ℕ
  pub next_index : String → ℕ
  pub match_index : String → ℕ
  pub election_reset_event : ℕ
  pub commit_notify : ℕ
  pub is_stopped : Bool

-- A message that a goroutine is started to send.
pub data Outgoing : Type 0 where
  request_vote : String → RequestVoteArgs → Outgoing
  append_entries : String → AppendEntriesArgs → Outgoing
  install_snapshot : String → InstallSnapshotArgs → Outgoing
