-- ===== src/Server/Commit/Stored.antt =====
-- A committed entry of raft/consensus.go is in the write-ahead log, one place below its index
-- (cmd/node/main.go).
use mathlib.Core.List.{append_assoc, append-nil}
use mathlib.Core.Path.{subst}
use aegis_log.Common.{
  ℕ, zero, suc, ◌+◌, ◌-◌, ◌^◌, ◌≤◌, ◌<◌, ◌≡◌, refl, sym, ap, ◌∙◌, arith, true, some, List, [], ◌∷◌,
  ◌++◌, length, get_elem?, drop, length-append, All, Result, ok, length-take, length-drop,
  get_elem?-append_right, get_elem?-take, get_elem?-drop,
}
use aegis_log.Raft.Types.{LogEntry, RaftNode, Config}
use aegis_log.Raft.Node.{new_raft_node}
use aegis_log.Raft.Log.{IsWellFormed, new_raft_node-IsWellFormed}
use aegis_log.Raft.Apply.{apply_committed-eq, delivered, entries_from}
use aegis_log.Storage.Segment.{SegmentError}
use aegis_log.Storage.Segment.Frames.{IsSmall}
use aegis_log.Storage.Wal.{
  Disk, Wal, append, roll_active_segment, append_active, read_at, latest_offset,
}
use aegis_log.Storage.Wal.Held.{Logs}
use aegis_log.Storage.Wal.Refine.{append-Logs, read_at-Logs, answer}
use aegis_log.Server.Commit.{data_of, on_commit, commit_all, run_applier}

-- An entry with data that fits a segment of `max` bytes.
abbrev pub IsStorable : ℕ → LogEntry → Type 0
IsStorable max e = (p : List ℕ) × (e.payload ≡ some p) × IsSmall p × (17 + length p ≤ max)

abbrev pub payloads : List LogEntry → List (List ℕ)
payloads [] = []
payloads (e ∷ es) = data_of e.payload ∷ payloads es

length-payloads : (es : List LogEntry) → length (payloads es) ≡ length es
length-payloads [] = refl
length-payloads (e ∷ es) = omega (arith, length-payloads es)

get_elem?-payloads :
    (es : List LogEntry) (k : ℕ) {e : LogEntry}
    → get_elem? es k ≡ some e
    → get_elem? (payloads es) k ≡ some (data_of e.payload)
get_elem?-payloads [] k h = cc
get_elem?-payloads (x ∷ es) zero h = ground arith
get_elem?-payloads (x ∷ es) (suc k) h = get_elem?-payloads es k h

delivered_whole : (max : ℕ) (es : List LogEntry) → All (IsStorable max) es → delivered true es ≡ es
unfolding delivered
delivered_whole max [] h = refl
delivered_whole max (e ∷ es) ((p, has, small, whole), hs) = simp (has, delivered_whole max es hs)

append-max :
    (disk : Disk) (w : Wal) (p : List ℕ) {w' : Wal} {r : Result SegmentError ℕ}
    → append disk w p ≡ some (w', r)
    → w'.max_segment_bytes ≡ w.max_segment_bytes
unfolding append roll_active_segment append_active
append-max disk w p h = ground arith

-- What the callback's calls leave of the log.
commit_all-Logs :
    (disk : Disk) (max : ℕ) (es : List LogEntry) (w : Wal) (log : List (List ℕ))
    → ((k : ℕ) → length log ≤ k → disk k ≡ some (record { log = []; index = [] }))
    → Logs w 0 log
    → w.max_segment_bytes ≡ max
    → All (IsStorable max) es
    → length log + length es < 2 ^ 64
    → (w' : Wal) × (commit_all disk w es ≡ some w') × Logs w' 0 (log ++ payloads es)
unfolding commit_all on_commit
commit_all-Logs disk max [] w log d h m s top = (w, refl, subst (Logs w 0) (sym (append-nil log)) h)
commit_all-Logs disk max (e ∷ es) w log d h m ((p, has, small, whole), s) top =
    let at : 0 + length log ≡ w.next_offset = sym h.next in
    let (w₁, done, h₁) =
      append-Logs disk w 0 log p h small (omega arith) (omega (arith, m))
        (d w.next_offset (omega (arith, h.next))) in
    let len = length-append log (p ∷ []) in
    let (w', rest, h') =
      commit_all-Logs disk max es w₁ (log ++ (p ∷ [])) (λ k le. d k (omega arith)) h₁
        (append-max disk w p done ∙ m) s (omega arith) in
    (
      w',
      rw (has, done) rest,
      subst (Logs w' 0)
          (append_assoc log (p ∷ []) (payloads es)
            ∙ ap (λ q. log ++ (data_of q ∷ payloads es)) (sym has))
          h',
    )

-- The log holds a payload for each index that was applied.
pub record InStep (s : RaftNode) (w : Wal) (log : List (List ℕ)) : Type 0 where
  pub logs : Logs w 0 log
  pub applied : length log ≡ s.last_applied
  pub well_formed : IsWellFormed s
  pub calls_back : s.cfg.on_commit ≡ true

-- The entries that are committed and not yet applied.
abbrev pub waiting : RaftNode → List LogEntry
waiting s = entries_from s s.last_applied (s.commit_index - s.last_applied)

module _ (disk : Disk) (s : RaftNode) (w : Wal) (log : List (List ℕ)) (k : InStep s w log)
    (fresh : (k : ℕ) → length log ≤ k → disk k ≡ some (record { log = []; index = [] }))
    (lo : s.last_applied ≤ s.commit_index)
    (hi : s.commit_index < s.last_included_index + length s.log)
    (storable : All (IsStorable w.max_segment_bytes) (waiting s)) where
  length-waiting : length (waiting s) ≡ s.commit_index - s.last_applied
  length-waiting =
      let n = s.commit_index - s.last_applied in
      let m = s.last_applied + 1 - s.last_included_index in
      omega (arith, length-take n (drop m s.log), length-drop m s.log, k.well_formed.applied)

  -- The applier of a node whose log of payloads holds one for each applied index runs to the end and keeps that so: it appends the payload of every entry from the one behind `lastApplied` to the commit index, in order, whether the log rolls or not. Each of these entries has data that fits a segment, and the files of new segments can be made.
  pub applied-InStep :
      (w' : Wal) × (run_applier disk s w ≡ some (record s { last_applied = s.commit_index }, w'))
      × InStep (record s { last_applied = s.commit_index }) w' (log ++ payloads (waiting s))
  unfolding run_applier
  applied-InStep =
      let len = length-waiting in
      let (w', done, logs) =
        commit_all-Logs disk w.max_segment_bytes (waiting s) w log fresh k.logs refl storable
          (omega (arith, k.applied, k.well_formed.in_range)) in
      let handed : delivered s.cfg.on_commit (waiting s) ≡ waiting s =
        ap (λ b. delivered b (waiting s)) k.calls_back
        ∙ delivered_whole w.max_segment_bytes (waiting s) storable in
      (
        w',
        rw (apply_committed-eq s k.well_formed lo hi, handed, done) refl,
        record {
          logs = logs;
          applied = omega (
            arith,
            length-append log (payloads (waiting s)),
            length-payloads (waiting s),
            k.applied,
          );
          well_formed = record {
            indexed = k.well_formed.indexed;
            anchored = k.well_formed.anchored;
            in_range = k.well_formed.in_range;
            committed = k.well_formed.committed;
            applied = omega (arith, k.well_formed.applied);
          };
          calls_back = k.calls_back;
        },
      )

  -- Behind that run, the payload of the entry at index `i`, committed and not applied before, is what a read of the log at offset `i - 1` gives.
  pub read-committed :
      (i : ℕ) (e : LogEntry)
      → s.last_applied < i
      → i ≤ s.commit_index
      → get_elem? s.log (i - s.last_included_index) ≡ some e
      → (s' : RaftNode) × (w' : Wal) × (run_applier disk s w ≡ some (s', w'))
        × (read_at w' (i - 1) ≡ some (ok (data_of e.payload)))
  read-committed i e after upto at =
      let (w', run, k') = applied-InStep in
      let j = i - 1 - length log in
      let n = s.commit_index - s.last_applied in
      let m = s.last_applied + 1 - s.last_included_index in
      let place : m + j ≡ i - s.last_included_index =
        omega (arith, k.applied, k.well_formed.applied) in
      let found : get_elem? (waiting s) j ≡ some e =
        get_elem?-take n (drop m s.log) j (omega (arith, k.applied))
        ∙ get_elem?-drop m s.log j
        ∙ ap (get_elem? s.log) place
        ∙ at in
      let in_log : get_elem? (log ++ payloads (waiting s)) (i - 1) ≡ some (data_of e.payload) =
        sym (get_elem?-append_right log (payloads (waiting s)) (i - 1) (omega (arith, k.applied)))
        ∙ get_elem?-payloads (waiting s) j found in
      (
        _,
        w',
        run,
        ap (read_at w') (omega arith)
            ∙ read_at-Logs w' 0 (log ++ payloads (waiting s)) (i - 1) k'.logs
                (omega (arith, k'.applied, k.well_formed.in_range))
            ∙ ap (λ o. some (answer o)) in_log,
      )

-- A node that starts with `InitialCommitIndex` at the latest offset of the log.
pub new_raft_node-InStep :
    (c : Config) (w : Wal) (log : List (List ℕ)) (now : ℕ)
    → Logs w 0 log
    → c.on_commit ≡ true
    → length log < 2 ^ 63
    → InStep (new_raft_node (record c { initial_commit_index = latest_offset w }) now) w log
unfolding new_raft_node
new_raft_node-InStep c w log now h set small = record {
  logs = h;
  applied = omega (arith, h.next);
  well_formed =
      new_raft_node-IsWellFormed (record c { initial_commit_index = latest_offset w }) now
        (omega (arith, h.next));
  calls_back = set;
}
