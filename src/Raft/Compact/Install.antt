-- ===== src/Raft/Compact/Install.antt =====
-- `HandleInstallSnapshot` of raft/consensus.go.
use mathlib.Core.Option.{some-injective}
use native.Mathlib.Decide.{dec_lt, dec_le, ℕ_discrete}
use aegis_log.Common.{
  ℕ, ◌+◌, ◌^◌, ◌≤◌, ◌<◌, ◌≡◌, refl, sym, ap, ◌∙◌, arith, Option, some, none, List, [], ◌∷◌, length,
  max,
}
use aegis_log.Raft.Types.{LogEntry, RaftNode, InstallSnapshotArgs}
use aegis_log.Raft.Node.{get_log_term, last_log_index}
use aegis_log.Raft.Handlers.{
  handle_install_snapshot, snapshot_log, install, compacted, anchor, raise_to, Restore, restore_of,
}
use aegis_log.Raft.Log.{
  Indexed, Anchored, IsWellFormed, get_log_term_total, last_log_index-eq, Anchored-length,
}
use aegis_log.Raft.Follow.{joined, follow-joined}
use aegis_log.Raft.Compact.{IsCompacted, compacted-IsCompacted}

-- The log holds the entry that the snapshot ends with.
abbrev pub HoldsEnd : RaftNode → InstallSnapshotArgs → Type 0
HoldsEnd s args =
    (args.last_included_index < s.last_included_index + length s.log)
    × (get_log_term s args.last_included_index ≡ some args.last_included_term)

-- What a snapshot leaves of the log: what is behind an entry that the log holds, or nothing.
pub data Remains (s : RaftNode) (args : InstallSnapshotArgs) (log : List LogEntry) : Type 0 where
  suffix :
      HoldsEnd s args
      → IsCompacted s args.last_included_index args.last_included_term log
      → Remains s args log
  nothing :
      ¬ (HoldsEnd s args)
      → log ≡ anchor args.last_included_index args.last_included_term ∷ []
      → Remains s args log

snapshot_log-Remains :
    (s : RaftNode) (args : InstallSnapshotArgs)
    → IsWellFormed s
    → s.last_included_index < args.last_included_index
    → args.last_included_index < 2 ^ 63
    → (log : List LogEntry) × (snapshot_log s args ≡ some log) × Remains s args log
unfolding snapshot_log
snapshot_log-Remains s args w lo r =
    let pos = Anchored-length s.last_included_term s.log w.anchored in
    let kept = compacted s args.last_included_index args.last_included_term in
    let bare = anchor args.last_included_index args.last_included_term ∷ [] in
    let (t, p) = get_log_term_total s args.last_included_index w r in
    elim (dec_lt args.last_included_index (s.last_included_index + length s.log)) [
      | no out ↦ (bare, ground (arith, last_log_index-eq s w), nothing (λ h. out h.0) refl)
      | yes inside ↦ elim (ℕ_discrete t args.last_included_term) [
        | yes same ↦ (
          kept,
          ground (arith, last_log_index-eq s w),
          suffix (inside, p ∙ ap some same) (compacted-IsCompacted s _ _ w (omega arith) inside),
        )
        | no ne ↦ (
          bare,
          ground (arith, last_log_index-eq s w),
          nothing (λ h. ne (some-injective _ _ (sym p ∙ h.1))) refl,
        )
      ]
    ]

-- The state after a snapshot was installed.
pub record IsInstalled (s s' : RaftNode) (args : InstallSnapshotArgs) : Type 0 where
  pub well_formed : IsWellFormed s'
  pub at_index : s'.last_included_index ≡ args.last_included_index
  pub at_term : s'.last_included_term ≡ args.last_included_term
  pub stored : s'.last_snapshot_data ≡ args.state
  pub committed : s'.commit_index ≡ max s.commit_index args.last_included_index
  pub applied : s'.last_applied ≡ max s.last_applied args.last_included_index
  pub log_kept : Remains s args s'.log

Remains-IsWellFormed :
    (s : RaftNode) (args : InstallSnapshotArgs) (log : List LogEntry)
    → IsWellFormed s
    → args.last_included_index < 2 ^ 63
    → Remains s args log
    → Indexed args.last_included_index log
      × Anchored args.last_included_term log
      × (args.last_included_index + length log ≤ 2 ^ 63)
Remains-IsWellFormed s args log w r (suffix h c) =
    (c.indexed, c.anchored, omega (arith, c.same_end, w.in_range))
Remains-IsWellFormed s args log w r (nothing h e) = rw e ((refl, tt), refl, omega arith)

install-IsInstalled :
    (s f : RaftNode) (args : InstallSnapshotArgs) (log : List LogEntry)
    → IsWellFormed s
    → args.last_included_index < 2 ^ 63
    → Remains s args log
    → f.commit_index ≡ s.commit_index
    → f.last_applied ≡ s.last_applied
    → IsInstalled s (install f args log) args
unfolding install raise_to
install-IsInstalled s f args log w r m c a =
    let (x, y, z) = Remains-IsWellFormed s args log w r m in
    record {
      well_formed = record {
        indexed = x;
        anchored = y;
        in_range = z;
        committed = ground arith;
        applied = ground arith;
      };
      at_index = refl;
      at_term = refl;
      stored = refl;
      committed = ground arith;
      applied = ground arith;
      log_kept = m;
    }

-- What a snapshot request leads to; the reply has the term from before the request.
pub data Outcome (s : RaftNode) (args : InstallSnapshotArgs) (now : ℕ) (s' : RaftNode)
    (restore : Option Restore) : Type 0 where
  stale : args.term < s.current_term → s' ≡ s → restore ≡ none → Outcome s args now s' restore
  obsolete :
      s.current_term ≤ args.term
      → args.last_included_index ≤ s.last_included_index
      → s' ≡ joined s args.term args.leader_id now
      → restore ≡ none
      → Outcome s args now s' restore
  installed :
      s.current_term ≤ args.term
      → s.last_included_index < args.last_included_index
      → IsInstalled s s' args
      → restore ≡ restore_of s args
      → Outcome s args now s' restore

abbrev Ends : RaftNode → InstallSnapshotArgs → ℕ → Type 0
Ends s args now =
    (s' : RaftNode) × (restore : Option Restore) × (handle_install_snapshot s args now
      ≡ some (s', record { term = s.current_term }, restore))
    × Outcome s args now s' restore

snapshot_log-joined :
    (s : RaftNode) (args : InstallSnapshotArgs) (now : ℕ)
    → snapshot_log (joined s args.term args.leader_id now) args ≡ snapshot_log s args
unfolding snapshot_log last_log_index get_log_term
snapshot_log-joined s args now = refl

handle-stale :
    (s : RaftNode) (args : InstallSnapshotArgs) (now : ℕ)
    → args.term < s.current_term
    → Ends s args now
unfolding handle_install_snapshot
handle-stale s args now old = (s, none, ground arith, stale old refl refl)

handle-obsolete :
    (s : RaftNode) (args : InstallSnapshotArgs) (now : ℕ)
    → s.current_term ≤ args.term
    → args.last_included_index ≤ s.last_included_index
    → Ends s args now
unfolding handle_install_snapshot
handle-obsolete s args now new h =
    (joined s args.term args.leader_id now, none, ground arith, obsolete new h refl refl)

handle-installed :
    (s : RaftNode) (args : InstallSnapshotArgs) (now : ℕ)
    → IsWellFormed s
    → args.last_included_index < 2 ^ 63
    → s.current_term ≤ args.term
    → s.last_included_index < args.last_included_index
    → Ends s args now
unfolding handle_install_snapshot
handle-installed s args now w r new h =
    let f = joined s args.term args.leader_id now in
    let (log, p, m) = snapshot_log-Remains s args w h r in
    let q = snapshot_log-joined s args now ∙ p in
    (
      install f args log,
      restore_of s args,
      ground (arith, follow-joined s args.term args.leader_id now),
      installed new h (install-IsInstalled s f args log w r m refl refl) refl,
    )

-- On a well-formed node and a snapshot that ends below 2 ^ 63 the handler returns without a fault: a stale term changes nothing, an obsolete snapshot only makes the node follow the sender, and any other is installed, with what lies behind it kept exactly when the log holds its last entry.
pub handle_install_snapshot-Outcome :
    (s : RaftNode) (args : InstallSnapshotArgs) (now : ℕ)
    → IsWellFormed s
    → args.last_included_index < 2 ^ 63
    → (s' : RaftNode) × (restore : Option Restore) × (handle_install_snapshot s args now
        ≡ some (s', record { term = s.current_term }, restore))
      × Outcome s args now s' restore
handle_install_snapshot-Outcome s args now w r = elim (dec_lt args.term s.current_term) [
  | yes old ↦ handle-stale s args now old
  | no new ↦ elim (dec_le args.last_included_index s.last_included_index) [
    | yes h ↦ handle-obsolete s args now (omega arith) h
    | no h ↦ handle-installed s args now w r (omega arith) (omega arith)
  ]
]
