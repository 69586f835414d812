-- ===== src/Server/State.antt =====
-- The state of the server of cmd/node/main.go, and the calls that its handlers make on a node. The
-- samples of the latency tracker are of any type; counts and switches are words of their width.
use Prim.Native.String.{String}
use aegis_log.Common.{
  ℕ, ◌^◌, ltb, ◌==◌, if◌then◌else◌, Bool, true, false, ◌&&◌, Option, some, List, [], length, Result,
  ok, err,
}
use aegis_log.Common.Faults.{◌>>=◌}
use aegis_log.Raft.Types.{NodeRole, RaftError, RaftNode, Outgoing}
use aegis_log.Raft.Election.{propose, Wake, await}
use aegis_log.Storage.Wal.{Wal}
use aegis_log.Server.Latency.{LatencyTracker}

-- `partitioned` and `latency_ms` are int32, `ws_clients` names the connections of the map.
pub record NodeServer (F : Type 0) : Type 0 where
  pub id : String
  pub client_port : ℕ
  pub peer_addrs : List String
  pub wal : Wal
  pub raft_node : RaftNode
  pub latency_tracker : LatencyTracker F
  pub tcp_clients : ℕ
  pub latency_ms : ℕ
  pub partitioned : ℕ
  pub ws_clients : List ℕ
  pub mtls : Bool

-- `GetState`: the role, the term, the commit index, and the leader.
abbrev pub get_state : RaftNode → NodeRole × ℕ × ℕ × String
get_state s = (s.role, s.current_term, s.commit_index, s.leader_id)

-- `GetSnapshotState`
abbrev pub get_snapshot_state : RaftNode → ℕ × ℕ × ℕ
get_snapshot_state s = (s.last_included_index, s.last_included_term, length s.log)

-- `GetPeers`
abbrev pub get_peers : RaftNode → List String
get_peers s = s.peers

-- A whole call of `Propose` that sees these events while it waits: the node behind the append, the
-- messages, and the result, which is `none` while the call still waits.
unfoldable pub call_propose :
    RaftNode
    → List ℕ
    → List Wake
    → Option ((RaftNode × List Outgoing) × Option (Result RaftError ℕ))
call_propose s payload wakes = propose s (some payload) >>= λ result. elim result [
  | err e ↦ some ((s, []), some (err e))
  | ok (step, p) ↦ some (step, await p wakes)
]

pub data SendError : Type 0 where
  node_is_partitioned transport_failed : SendError

-- A send of one of the three requests: how long it slept, whether it reached the transport, and what
-- it returned.
pub record Sent (R : Type 0) : Type 0 where
  pub slept : ℕ
  pub reached : Bool
  pub result : Result SendError R

-- An int32 word above 0.
abbrev is_positive32 : ℕ → Bool
is_positive32 v = ltb 0 v && ltb v (2 ^ 31)

-- `SendRequestVote`, `SendAppendEntries` and `SendInstallSnapshot`, for what the transport returns.
unfoldable pub send : {F R : Type 0} → NodeServer F → Result SendError R → Sent R
send s reply =
    if s.partitioned == 1
    then record { slept = 0; reached = false; result = err node_is_partitioned }
    else record {
      slept = if is_positive32 s.latency_ms then s.latency_ms else 0;
      reached = true;
      result = reply;
    }
