-- ===== src/Server/Telemetry.antt =====
-- The telemetry of cmd/node/main.go, and the WebSocket clients that it is sent to.
use Prim.Native.String.{String}
use aegis_log.Common.{ℕ, ◌-◌, ltb, ◌==◌, if◌then◌else◌, Bool, Option, some, List, [], ◌∷◌}
use aegis_log.Common.Faults.{◌>>=◌}
use aegis_log.Raft.Types.{raw_string}
use aegis_log.Storage.Wal.{latest_offset}
use aegis_log.Server.Latency.{percentiles}
use aegis_log.Server.State.{NodeServer, get_state, get_snapshot_state}

pub record NodeTelemetry (F : Type 0) : Type 0 where
  pub id : String
  pub role : String
  pub term : ℕ
  pub commit_index : ℕ
  pub leader_id : String
  pub latest_offset : ℕ
  pub replication_lag : ℕ
  pub peers : List String
  pub active_tcp_conns : ℕ
  pub uptime : ℕ
  pub latency_ms : ℕ
  pub is_partitioned : Bool
  pub p50_latency : F
  pub p99_latency : F
  pub snapshot_index : ℕ
  pub snapshot_term : ℕ
  pub in_memory_log_entries : ℕ
  pub mtls_enabled : Bool

module _ {F : Type 0} (above : F → F → Bool) (baseline : F × F) (round2 : F → F) where
  -- `round2 p` is `math.Round(p*100) / 100`, and `uptime` what the clock gives. The node and the log
  -- do not change between the calls that read them.
  unfoldable pub get_telemetry : NodeServer F → ℕ → Option (NodeTelemetry F)
  get_telemetry s uptime =
      let (role, term, commit, leader) = get_state s.raft_node in
      let (index, last_term, len) = get_snapshot_state s.raft_node in
      let latest = latest_offset s.wal in
      percentiles above baseline s.latency_tracker >>= λ (p50, p99). some (record {
        id = s.id;
        role = raw_string role;
        term = term;
        commit_index = commit;
        leader_id = leader;
        latest_offset = latest;
        replication_lag = if ltb commit latest then latest - commit else 0;
        peers = s.peer_addrs;
        active_tcp_conns = s.tcp_clients;
        uptime = uptime;
        latency_ms = s.latency_ms;
        is_partitioned = s.partitioned == 1;
        p50_latency = round2 p50;
        p99_latency = round2 p99;
        snapshot_index = index;
        snapshot_term = last_term;
        in_memory_log_entries = len;
        mtls_enabled = s.mtls;
      })

-- `handleWS` adds its connection to the map and deletes it when the read loop ends.
abbrev pub delete_client : ℕ → List ℕ → List ℕ
delete_client c [] = []
delete_client c (d ∷ ds) = if c == d then delete_client c ds else d ∷ delete_client c ds

abbrev pub add_client : ℕ → List ℕ → List ℕ
add_client c cs = c ∷ delete_client c cs

-- One tick of `runTelemetryBroadcastLoop` over the connections, with whether the write to each
-- succeeds: those that are left.
unfoldable pub broadcast : (ℕ → Bool) → List ℕ → List ℕ
broadcast written [] = []
broadcast written (c ∷ cs) = if written c then c ∷ broadcast written cs else broadcast written cs
