-- ===== src/Server/Start.antt =====
-- Starting and stopping the server of cmd/node/main.go. Flags, certificates and sockets are parameters.
pub mod Restart
use Prim.Native.String.{String}
use text.Mathlib.Text.{◌==◌ as str_eq}
use aegis_log.Common.{
  ℕ, ◌*◌, if◌then◌else◌, Bool, true, not, Option, some, List, [], ◌∷◌, Result, ok, err,
}
use aegis_log.Common.Faults.{◌>>=◌}
use aegis_log.Raft.Types.{Config}
use aegis_log.Raft.Node.{new_raft_node}
use aegis_log.Raft.Timer.{stop as stop_node}
use aegis_log.Storage.Segment.{SegmentError}
use aegis_log.Storage.Wal.{Disk, Wal, open_wal, latest_offset, close}
use aegis_log.Server.Latency.{new_latency_tracker}
use aegis_log.Server.State.{NodeServer}

-- The addresses of the flag, for what `strings.Split` and `strings.TrimSpace` give: the parts that are
-- not empty.
unfoldable pub parse_peers : (String → String) → List String → List String
parse_peers trim [] = []
parse_peers trim (p ∷ ps) =
    let rest = parse_peers trim ps in if str_eq (trim p) "" then rest else trim p ∷ rest

-- `DefaultConfig` of storage/wal_segment.go.
abbrev pub default_max_segment_bytes : ℕ
default_max_segment_bytes = 64 * 1024 * 1024

abbrev pub default_index_interval : ℕ
default_index_interval = 4096

pub data StartError : Type 0 where
  wal_failed : SegmentError → StartError
  coordinator_failed transport_failed : StartError

-- The raft configuration that the server gives its node.
abbrev pub raft_config : String → List String → Wal → Config
raft_config id peers wal = record {
  id = id;
  peers = peers;
  election_min_ms = 350;
  election_max_ms = 700;
  heartbeat_interval = 80;
  on_commit = true;
  on_restore_snapshot = true;
  initial_commit_index = latest_offset wal;
}

-- The server with its node, for an open log.
abbrev pub built : {F : Type 0} → Bool → String → ℕ → List String → ℕ → Wal → NodeServer F
built tls id client_port peers now wal = record {
  id = id;
  client_port = client_port;
  peer_addrs = peers;
  wal = wal;
  raft_node = new_raft_node (raft_config id peers wal) now;
  latency_tracker = new_latency_tracker 60;
  tcp_clients = 0;
  latency_ms = 0;
  partitioned = 0;
  ws_clients = [];
  mtls = tls;
}

-- `NewNodeServer`, for the files of the data directory, whether the coordinator opens, whether the
-- transport binds, and whether a certificate was made.
unfoldable pub new_node_server :
    {F : Type 0}
    → Disk
    → List ℕ
    → Bool
    → Bool
    → Bool
    → String
    → ℕ
    → List String
    → ℕ
    → Option (Result StartError (NodeServer F))
new_node_server disk listed coordinator_opens transport_binds tls id client_port peers now =
    open_wal disk default_max_segment_bytes default_index_interval listed >>= λ result.
    elim result [
      | err e ↦ some (err (wal_failed e))
      | ok wal ↦
          if not coordinator_opens
          then some (err coordinator_failed)
          else if not transport_binds
          then some (err transport_failed)
          else some (ok (built tls id client_port peers now wal))
    ]

-- `Stop`; the transport and the coordinator are closed too.
abbrev pub stop : {F : Type 0} → NodeServer F → NodeServer F
stop s = record s { raft_node = stop_node s.raft_node; wal = close s.wal }
