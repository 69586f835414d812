-- ===== src/Server/Commit/Tests.antt =====
-- A committed entry that the server of cmd/node/main.go stores in an empty log.
use aegis_log.Common.{
  ℕ, ◌≡◌, refl, arith, true, false, Option, none, some, [], ◌∷◌, ok, sym, ap, Result,
}
use aegis_log.Raft.Types.{RaftNode, Config, follower}
use aegis_log.Storage.Mapped.{zeros}
use aegis_log.Storage.Segment.{SegmentError, recover, recover_loop}
use aegis_log.Storage.Wal.{
  Disk, Wal, read_at, open_wal, open_sorted, sort_offsets, open_segments, new_segment,
  open_sparse_index, view_of,
}
use aegis_log.Storage.Wal.Held.{Logs}
use aegis_log.Storage.Wal.Restart.{open_wal-empty}
use aegis_log.Server.Commit.{run_applier}
use aegis_log.Server.Commit.Stored.{InStep, applied-InStep, read-committed}

abbrev pub blank_disk : Disk
blank_disk k = some (record { log = []; index = [] })

abbrev pub config : Config
config = record {
  id = "1";
  peers = "2" ∷ "3" ∷ [];
  election_min_ms = 350;
  election_max_ms = 700;
  heartbeat_interval = 80;
  on_commit = true;
  on_restore_snapshot = true;
  initial_commit_index = 0;
}

-- A follower that has learnt that its first entry is committed.
abbrev pub node : RaftNode
node = record {
  id = "1";
  peers = "2" ∷ "3" ∷ [];
  cfg = config;
  current_term = 1;
  voted_for = "";
  log =
      record { index = 0; term = 0; payload = none }
      ∷ record { index = 1; term = 1; payload = some (7 ∷ 8 ∷ []) }
      ∷ [];
  commit_index = 1;
  last_applied = 0;
  role = follower;
  leader_id = "2";
  last_included_index = 0;
  last_included_term = 0;
  last_snapshot_data = [];
  next_index = λ p. 0;
  match_index = λ p. 0;
  election_reset_event = 0;
  commit_notify = 1;
  is_stopped = false;
}

abbrev max_of : Option (Result SegmentError Wal) → ℕ
max_of (some (ok w)) = w.max_segment_bytes
max_of r = 0

pub opened_empty : (w : Wal) × (open_wal blank_disk 64 4096 [] ≡ some (ok w)) × Logs w 0 []
opened_empty =
    open_wal-empty blank_disk 64 4096 (record { fits = omega arith; nonzero = λ e. omega arith })
      refl

opened_empty-max : opened_empty.0.max_segment_bytes ≡ 64
unfolding open_wal open_sorted sort_offsets open_segments new_segment recover open_sparse_index
    zeros view_of recover_loop
opened_empty-max = ap max_of (sym opened_empty.1)

pub node-InStep : InStep node opened_empty.0 []
node-InStep = record {
  logs = opened_empty.2;
  applied = refl;
  well_formed = record {
    indexed = (refl, (refl, tt));
    anchored = refl;
    in_range = omega arith;
    committed = omega arith;
    applied = omega arith;
  };
  calls_back = refl;
}

applied-InStep_example :
    (w' : Wal) × (run_applier blank_disk node opened_empty.0
      ≡ some (record node { last_applied = 1 }, w'))
    × InStep (record node { last_applied = 1 }) w' ((7 ∷ 8 ∷ []) ∷ [])
applied-InStep_example =
    applied-InStep blank_disk node opened_empty.0 [] node-InStep (λ k h. refl) (omega arith)
      (omega arith) ((7 ∷ 8 ∷ [], refl, omega arith, omega (arith, opened_empty-max)), tt)

pub node_stored :
    (w' : Wal) × (run_applier blank_disk node opened_empty.0
      ≡ some (record node { last_applied = 1 }, w'))
    × InStep (record node { last_applied = 1 }) w' ((7 ∷ 8 ∷ []) ∷ [])
node_stored =
    applied-InStep blank_disk node opened_empty.0 [] node-InStep (λ k h. refl) (omega arith)
      (omega arith) ((7 ∷ 8 ∷ [], refl, omega arith, omega (arith, opened_empty-max)), tt)

read-committed_example :
    (s' : RaftNode) × (w' : Wal) × (run_applier blank_disk node opened_empty.0 ≡ some (s', w'))
    × (read_at w' 0 ≡ some (ok (7 ∷ 8 ∷ [])))
read-committed_example =
    read-committed blank_disk node opened_empty.0 [] node-InStep (λ k h. refl) (omega arith)
      (omega arith) ((7 ∷ 8 ∷ [], refl, omega arith, omega (arith, opened_empty-max)), tt) 1
      (record { index = 1; term = 1; payload = some (7 ∷ 8 ∷ []) }) (omega arith) (omega arith) refl
