-- ===== src/Raft/Announce.antt =====
-- How a leader of raft/consensus.go announces a new commit index, `checkAndUpdateCommitIndex`.
use Prim.Native.String.{String}
use native.Mathlib.Decide.{dec_lt, dec_le, ℕ_discrete}
use aegis_log.Common.{
  ap, ◌∙◌, Option-cases, ℕ, zero, suc, ◌+◌, ◌-◌, ◌^◌, ◌<◌, ◌≡◌, refl, arith, Option, some, none,
  List, [], All, inl, inr, length,
}
use aegis_log.Common.Faults.{Paired}
use aegis_log.Raft.Types.{RaftNode, Outgoing}
use aegis_log.Raft.Node.{
  find_commit, set_commit, notify, check_and_update_commit_index, broadcast_append_entries, quorum,
  stored_by,
}
use aegis_log.Raft.Log.{IsWellFormed, last_log_index-eq, get_log_term_total, Anchored-length}
use aegis_log.Raft.Commit.{find_commit-IsFound}
use aegis_log.Raft.Leader.{IsSendable, IsFor, broadcast-IsSendable}

-- What the leader does when it looks at its commit index.
pub data Announced (s s' : RaftNode) (messages : List Outgoing) : Type 0 where
  silent : s' ≡ s → messages ≡ [] → Announced s s' messages
  announces :
      s.commit_index < s'.commit_index
      → s'.log ≡ s.log
      → s'.current_term ≡ s.current_term
      → All IsSendable messages
      → Paired (IsFor s') s'.peers messages
      → Announced s s' messages

find_commit_total :
    (s : RaftNode) (n : ℕ)
    → IsWellFormed s
    → n < 2 ^ 63
    → (found : Option ℕ) × (find_commit s n ≡ some found)
unfolding find_commit
find_commit_total s zero w r = (none, refl)
find_commit_total s (suc n) w r =
    let (rest, later) = find_commit_total s n w (omega arith) in
    let (t, e) = get_log_term_total s (suc n) w r in
    elim (dec_lt s.commit_index (suc n)) [
      | no low ↦ (none, ground arith)
      | yes up ↦ elim (ℕ_discrete t s.current_term) [
        | no ne ↦ (rest, ground (arith, e, later))
        | yes same ↦ elim (dec_le (quorum s) (1 + stored_by s (suc n) s.peers)) [
          | yes enough ↦ (some (suc n), ground (arith, e))
          | no few ↦ (rest, ground (arith, e, later))
        ]
      ]
    ]

committed_at : RaftNode → ℕ → RaftNode
unfolding notify
committed_at s n = notify (record s { commit_index = n })

committed_at-IsWellFormed :
    (s : RaftNode) (n : ℕ) → IsWellFormed s → s.commit_index < n → IsWellFormed (committed_at s n)
unfolding committed_at notify
committed_at-IsWellFormed s n w up = ground arith

committed_at-kept :
    (s : RaftNode) (n : ℕ)
    → ((committed_at s n).commit_index ≡ n)
      × ((committed_at s n).log ≡ s.log)
      × ((committed_at s n).current_term ≡ s.current_term)
      × ((committed_at s n).next_index ≡ s.next_index)
unfolding committed_at notify
committed_at-kept s n = (ground arith, ground arith, ground arith, ground arith)

set_commit-some :
    (s : RaftNode) (n : ℕ) {messages : List Outgoing}
    → broadcast_append_entries (committed_at s n) ≡ some messages
    → set_commit s (some n) ≡ some (committed_at s n, messages)
unfolding set_commit committed_at
set_commit-some s n e = ground arith

set_commit-Announced :
    (s : RaftNode) (n : ℕ)
    → IsWellFormed s
    → ((p : String) → s.next_index p < 2 ^ 63)
    → s.commit_index < n
    → (s' : RaftNode) × (messages : List Outgoing) × (set_commit s (some n) ≡ some (s', messages))
      × IsWellFormed s'
      × Announced s s' messages
set_commit-Announced s n w r up =
    let (at, log, term, next) = committed_at-kept s n in
    let w' = committed_at-IsWellFormed s n w up in
    let (messages, e, sendable, sent) =
      broadcast-IsSendable (committed_at s n) w' (λ p. rw next (r p)) in
    (
      committed_at s n,
      messages,
      set_commit-some s n e,
      w',
      announces (omega (arith, at)) log term sendable sent,
    )

check_and_update-eq :
    (s : RaftNode) {found : Option ℕ} {after : Option (RaftNode × List Outgoing)}
    → IsWellFormed s
    → find_commit s (s.last_included_index + length s.log - 1) ≡ some found
    → set_commit s found ≡ after
    → check_and_update_commit_index s ≡ after
unfolding check_and_update_commit_index
check_and_update-eq s w f e = rw (last_log_index-eq s w, f) e

set_commit-none : (s : RaftNode) → set_commit s none ≡ some (s, [])
unfolding set_commit
set_commit-none s = refl

-- A well-formed node whose `next_index` stays below 2 ^ 63 does not fault when it looks at its commit index, and stays well formed: either it changes nothing and sends nothing, or it moves the commit index up, keeps its log and its term, and sends each peer the message that the new state asks for, which its receiver does not fault on.
pub check_and_update-Announced :
    (s : RaftNode)
    → IsWellFormed s
    → ((p : String) → s.next_index p < 2 ^ 63)
    → (s' : RaftNode) × (messages : List Outgoing) × (check_and_update_commit_index s
        ≡ some (s', messages))
      × IsWellFormed s'
      × Announced s s' messages
check_and_update-Announced s w r =
    let last = s.last_included_index + length s.log - 1 in
    let (found, f) =
      find_commit_total s last w
        (omega (arith, w.in_range, Anchored-length s.last_included_term s.log w.anchored)) in
    elim (Option-cases found) [
      | inl nothing ↦ (
        s,
        [],
        check_and_update-eq s w f (ap (set_commit s) nothing ∙ set_commit-none s),
        w,
        silent refl refl,
      )
      | inr (n, here) ↦
          let up = ((find_commit-IsFound s last f).sound n here).0 in
          let (s', messages, e, w', told) = set_commit-Announced s n w r up in
          (s', messages, check_and_update-eq s w f (ap (set_commit s) here ∙ e), w', told)
    ]
