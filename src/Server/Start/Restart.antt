-- ===== src/Server/Start/Restart.antt =====
-- The state that the server of cmd/node/main.go starts in.
use Prim.Native.String.{String}
use aegis_log.Common.{ℕ, ◌^◌, ◌<◌, ◌≡◌, refl, Bool, true, some, List, length, ok}
use aegis_log.Storage.Wal.{Disk, Wal, open_wal}
use aegis_log.Storage.Wal.Held.{Logs}
use aegis_log.Server.State.{NodeServer}
use aegis_log.Server.Start.{
  new_node_server, built, raft_config, default_max_segment_bytes, default_index_interval,
}
use aegis_log.Server.Commit.Stored.{InStep, new_raft_node-InStep}

-- A server that starts on files whose log holds the payloads `log` from offset 0 on, fewer than 2 ^ 63, comes up with a node that takes exactly these as applied, so that the next committed entry goes behind them; the coordinator opens and the transport binds.
pub started-InStep :
    {F : Type 0} (disk : Disk) (listed : List ℕ) (tls : Bool) (id : String) (client_port : ℕ)
    (peers : List String) (now : ℕ) (w : Wal) (log : List (List ℕ))
    → open_wal disk default_max_segment_bytes default_index_interval listed ≡ some (ok w)
    → Logs w 0 log
    → length log < 2 ^ 63
    → (s : NodeServer F) × (new_node_server disk listed true true tls id client_port peers now
        ≡ some (ok s))
      × (s.wal ≡ w)
      × InStep s.raft_node s.wal log
unfolding new_node_server
started-InStep disk listed tls id client_port peers now w log opens h small = (
  built tls id client_port peers now w,
  rw (opens) refl,
  refl,
  new_raft_node-InStep (raft_config id peers w) w log now h refl small,
)
