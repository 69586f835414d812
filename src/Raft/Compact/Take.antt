-- ===== src/Raft/Compact/Take.antt =====
-- `TakeSnapshot` of raft/consensus.go.
use aegis_log.Common.{
  Option, Result, ℕ, ◌+◌, ◌≤◌, ◌<◌, ◌≡◌, refl, arith, some, List, length, ok, err, ltb,
  if◌then◌else◌, ◌⊎◌,
}
use aegis_log.Raft.Types.{RaftNode, RaftError, above_commit, already_included, beyond_log}
use aegis_log.Raft.Node.{get_log_term}
use aegis_log.Raft.Handlers.{take_snapshot, compacted, raise_to}
use aegis_log.Raft.Log.{IsWellFormed, get_log_term_total}
use aegis_log.Raft.Compact.{IsCompacted, compacted-IsCompacted}

-- The state after a snapshot at `index`.
pub record IsSnapshot (s s' : RaftNode) (index : ℕ) (state : List ℕ) : Type 0 where
  pub well_formed : IsWellFormed s'
  pub at_index : s'.last_included_index ≡ index
  pub term_kept : get_log_term s index ≡ some s'.last_included_term
  pub log_kept : IsCompacted s index s'.last_included_term s'.log
  pub stored : s'.last_snapshot_data ≡ state
  pub commit_kept : s'.commit_index ≡ s.commit_index
  pub applied : s.last_applied ≤ s'.last_applied

snapshot_state : RaftNode → ℕ → ℕ → List ℕ → RaftNode
snapshot_state s index term state = record s {
  log = compacted s index term;
  last_included_index = index;
  last_included_term = term;
  last_snapshot_data = state;
  last_applied = raise_to s.last_applied index;
}

take_snapshot-eq :
    (s : RaftNode) (index : ℕ) (state : List ℕ) {t : ℕ}
    → s.last_included_index < index
    → index ≤ s.commit_index
    → index < s.last_included_index + length s.log
    → get_log_term s index ≡ some t
    → take_snapshot s index state ≡ some (ok (snapshot_state s index t state))
unfolding take_snapshot snapshot_state
take_snapshot-eq s index state lo hi lt p = ground arith

snapshot_state-IsSnapshot :
    (s : RaftNode) (index t : ℕ) (state : List ℕ)
    → IsWellFormed s
    → s.last_included_index < index
    → index ≤ s.commit_index
    → index < s.last_included_index + length s.log
    → get_log_term s index ≡ some t
    → IsSnapshot s (snapshot_state s index t state) index state
unfolding snapshot_state raise_to
snapshot_state-IsSnapshot s index t state w lo hi lt p =
    let c = compacted-IsCompacted s index t w (omega arith) lt in
    record {
      well_formed = record {
        indexed = c.indexed;
        anchored = c.anchored;
        in_range = omega (arith, c.same_end, w.in_range);
        committed = hi;
        applied = ground arith;
      };
      at_index = refl;
      term_kept = p;
      log_kept = c;
      stored = refl;
      commit_kept = refl;
      applied = ground arith;
    }

-- On a well-formed node a snapshot at an index above the last one, not above the commit index and inside the log succeeds: the log keeps every entry behind the index and ends where it ended, the anchor has the term of the entry at the index, and the commit index stays.
pub take_snapshot-IsSnapshot :
    (s : RaftNode) (index : ℕ) (state : List ℕ)
    → IsWellFormed s
    → s.last_included_index < index
    → index ≤ s.commit_index
    → index < s.last_included_index + length s.log
    → (s' : RaftNode) × (take_snapshot s index state ≡ some (ok s')) × IsSnapshot s s' index state
take_snapshot-IsSnapshot s index state w lo hi lt =
    let (t, p) = get_log_term_total s index w (omega (arith, w.in_range)) in
    (
      snapshot_state s index t state,
      take_snapshot-eq s index state lo hi lt p,
      snapshot_state-IsSnapshot s index t state w lo hi lt p,
    )

-- A snapshot above the commit index, or at or below the last one, is refused with the error for it, and the first test wins.
pub take_snapshot_refused :
    (s : RaftNode) (index : ℕ) (state : List ℕ)
    → (s.commit_index < index) ⊎ (index ≤ s.last_included_index)
    → take_snapshot s index state
      ≡ some (
          err (
            if ltb s.commit_index index
            then above_commit index s.commit_index
            else already_included index s.last_included_index))
unfolding take_snapshot
take_snapshot_refused s index state h = ground arith

-- How `TakeSnapshot` ends; an error leaves the node as it was.
pub data TakeOutcome (s : RaftNode) (index : ℕ) (state : List ℕ)
    (result : Option (Result RaftError RaftNode)) : Type 0 where
  not_committed :
      s.commit_index < index
      → result ≡ some (err (above_commit index s.commit_index))
      → TakeOutcome s index state result
  old :
      index ≤ s.commit_index
      → index ≤ s.last_included_index
      → result ≡ some (err (already_included index s.last_included_index))
      → TakeOutcome s index state result
  out_of_log :
      index ≤ s.commit_index
      → s.last_included_index + length s.log ≤ index
      → result ≡ some (err (beyond_log index s.commit_index))
      → TakeOutcome s index state result
  taken :
      (s' : RaftNode)
      → s.last_included_index < index
      → index ≤ s.commit_index
      → index < s.last_included_index + length s.log
      → result ≡ some (ok s')
      → IsSnapshot s s' index state
      → TakeOutcome s index state result
