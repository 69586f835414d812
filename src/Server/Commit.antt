-- ===== src/Server/Commit.antt =====
-- cmd/node/main.go: `OnCommit` stores each committed entry in the log of storage/wal_segment.go.
pub mod Stored
pub mod Tests
use aegis_log.Common.{ℕ, Option, none, some, List, [], ◌∷◌}
use aegis_log.Common.Faults.{◌>>=◌}
use aegis_log.Raft.Types.{LogEntry, RaftNode}
use aegis_log.Raft.Election.{apply_committed}
use aegis_log.Storage.Wal.{Disk, Wal, append}

-- `entry.Data`, where nil has no bytes.
abbrev pub data_of : Option (List ℕ) → List ℕ
data_of none = []
data_of (some p) = p

-- The callback; the result and the error of the append are dropped.
unfoldable pub on_commit : Disk → Wal → LogEntry → Option Wal
on_commit disk w e = append disk w (data_of e.payload) >>= λ (w', result). some w'

-- The calls of the callback, in order.
unfoldable pub commit_all : Disk → Wal → List LogEntry → Option Wal
unfolding on_commit
commit_all disk w [] = some w
commit_all disk w (e ∷ es) = on_commit disk w e >>= λ w'. commit_all disk w' es

-- A run of the applier with this callback.
unfoldable pub run_applier : Disk → RaftNode → Wal → Option (RaftNode × Wal)
unfolding commit_all
run_applier disk s w =
    apply_committed s >>= λ (s', handed). commit_all disk w handed >>= λ w'. some (s', w')
