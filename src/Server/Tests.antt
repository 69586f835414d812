-- ===== src/Server/Tests.antt =====
-- Requests to the server of cmd/node/main.go, and the theorems about it at concrete inputs.
use aegis_log.Common.{ok, ℕ, ◌≡◌, refl, arith, Bool, true, false, some, List, [], ◌∷◌, ◌++◌, ltb}
use aegis_log.Raft.Types.{RaftNode, leader}
use aegis_log.Raft.Node.{
  last_log_index, broadcast_append_entries, message_for, get_log_term, get_log_slice,
}
use aegis_log.Raft.Election.{propose, poll, await}
use aegis_log.Server.Latency.{LatencyTracker, record_sample}
use aegis_log.Server.State.{NodeServer, call_propose}
use aegis_log.Server.Client.{Round, err_not_leader, acked, answer, handle_client_conn}
use aegis_log.Server.Client.Answers.{
  sent, Answered, done, more, serve-Answered, EachEarned, serve-Earned,
}
use aegis_log.Server.Http.{handle_http_snapshot_trigger}
use aegis_log.Server.Http.Answers.{Triggered, trigger-IsSnapshot}
use aegis_log.Storage.Wal.{Wal, open_wal}
use aegis_log.Storage.Wal.Held.{Logs}
use aegis_log.Storage.Wal.Restart.{open_wal-empty}
use aegis_log.Server.Commit.Stored.{InStep}
use aegis_log.Server.Start.{new_node_server, default_max_segment_bytes, default_index_interval}
use aegis_log.Server.Start.Restart.{started-InStep}
use aegis_log.Server.Commit.Tests.{blank_disk, node, opened_empty}

abbrev above : ℕ → ℕ → Bool
above x y = ltb y x

abbrev tracker : LatencyTracker ℕ
tracker = record { samples = []; max_len = 60 }

abbrev server : NodeServer ℕ
server = record {
  id = "1";
  client_port = 8001;
  peer_addrs = "127.0.0.1:9002" ∷ "127.0.0.1:9003" ∷ [];
  wal = opened_empty.0;
  raft_node = node;
  latency_tracker = tracker;
  tcp_clients = 1;
  latency_ms = 0;
  partitioned = 0;
  ws_clients = [];
  mtls = false;
}

-- Node 1 as the leader, and once its second entry is committed.
abbrev chief : RaftNode
chief = record node { role = leader; leader_id = "1"; next_index = λ p. 2 }

abbrev chief_later : RaftNode
chief_later = record chief { commit_index = 2 }

abbrev refused_round : Round ℕ
refused_round = record {
  seen = node;
  proposed_to = node;
  wakes = [];
  elapsed = 5;
  ack_written = true;
}

abbrev acked_round : Round ℕ
acked_round = record {
  seen = chief;
  proposed_to = chief;
  wakes = poll chief ∷ poll chief_later ∷ [];
  elapsed = 9;
  ack_written = true;
}

abbrev requests : List (ℕ × List ℕ)
requests = (0, 65 ∷ []) ∷ (0, 66 ∷ 67 ∷ []) ∷ []

abbrev after : LatencyTracker ℕ
after = record { samples = 9 ∷ []; max_len = 60 }

two_answers :
    Answered tracker requests
      (refused_round ∷ acked_round ∷ [])
      after
      (err_not_leader "2" ∷ acked 2 ∷ [])
unfolding answer call_propose record_sample propose await last_log_index broadcast_append_entries
    message_for get_log_term get_log_slice
two_answers =
    more 0 (65 ∷ []) refused_round (err_not_leader "2") (omega arith) (omega arith) refl refl
      (more 0 (66 ∷ 67 ∷ []) acked_round (acked 2) (omega arith) (omega arith) refl refl done)

serve-Answered_example :
    handle_client_conn tracker (sent requests ++ (1 ∷ [])) (refused_round ∷ acked_round ∷ [])
    ≡ some (record { tracker = after; replies = err_not_leader "2" ∷ acked 2 ∷ []; running = true })
serve-Answered_example =
    serve-Answered tracker after requests (refused_round ∷ acked_round ∷ [])
      (err_not_leader "2" ∷ acked 2 ∷ []) (1 ∷ []) two_answers

serve-Earned_example :
    EachEarned
      (sent requests ++ (1 ∷ []))
      (refused_round ∷ acked_round ∷ [])
      (err_not_leader "2" ∷ acked 2 ∷ [])
serve-Earned_example =
    serve-Earned tracker (sent requests ++ (1 ∷ [])) (refused_round ∷ acked_round ∷ [])
      (record { tracker = after; replies = err_not_leader "2" ∷ acked 2 ∷ []; running = true })
      serve-Answered_example

-- Another goroutine hears from the leader before the snapshot is taken, and applies entry 1 after.
abbrev heard : RaftNode → RaftNode
heard s = record s { election_reset_event = 90 }

abbrev applies : RaftNode → RaftNode
applies s = record s { last_applied = 1 }

trigger-IsSnapshot_example :
    Triggered applies server
      (heard node)
      (1 ∷ [])
      (handle_http_snapshot_trigger heard applies server "POST" (1 ∷ []))
trigger-IsSnapshot_example =
    trigger-IsSnapshot heard applies server (1 ∷ []) (omega arith) (omega arith) (omega arith)

opened_default :
    (w : Wal) × (open_wal blank_disk default_max_segment_bytes default_index_interval []
      ≡ some (ok w))
    × Logs w 0 []
opened_default =
    open_wal-empty blank_disk default_max_segment_bytes default_index_interval
      (record { fits = omega arith; nonzero = λ e. omega arith }) refl

started-InStep_example :
    (s : NodeServer ℕ) × (new_node_server blank_disk [] true true false "1" 8001 ("2" ∷ []) 0
      ≡ some (ok s))
    × (s.wal ≡ opened_default.0)
    × InStep s.raft_node s.wal []
started-InStep_example =
    started-InStep blank_disk [] false "1" 8001 ("2" ∷ []) 0 opened_default.0 [] opened_default.1
      opened_default.2 (omega arith)
