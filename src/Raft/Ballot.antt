-- ===== src/Raft/Ballot.antt =====
-- The term and the vote of a node of raft/consensus.go across every step that it can take.
pub mod Steps
pub mod Once
use native.Mathlib.Decide.{dec_lt}
use aegis_log.Common.{
  ℕ, zero, suc, ◌+◌, ◌-◌, ◌^◌, ◌≤◌, ◌<◌, ◌≡◌, ◌≢◌, refl, sym, ap, ◌∙◌, arith, Bool, true, false,
  Option, none, some, List, [], ◌∷◌, length, ltb, leb, if◌then◌else◌, Result, ok, err, ◌⊎◌, inl,
  inr,
}
use aegis_log.Common.Faults.{◌>>=◌}
use Prim.Native.String.{String}
use aegis_log.Raft.Types.{
  RaftNode, LogEntry, RequestVoteArgs, RequestVoteReply, AppendEntriesArgs, AppendEntriesReply,
  InstallSnapshotArgs, InstallSnapshotReply, Outgoing,
}
use aegis_log.Raft.Node.{
  step_down, notify, reset_peers, become_leader, check_and_update_commit_index, set_commit,
}
use aegis_log.Raft.Handlers.{
  handle_request_vote, put_entry, put_entries, advance_commit, store_entries, handle_append_entries,
  install, handle_install_snapshot, Restore, take_snapshot,
}
use aegis_log.Raft.Election.{
  on_pre_vote_reply, start_election, on_vote_reply, on_append_reply, on_snapshot_reply, propose,
  Proposal, apply_loop, apply_committed,
}

-- One step of a node: a request, a reply, a proposal, a timer, or the applier.
pub data NodeStep (s s' : RaftNode) : Type 0 where
  request_vote :
      (args : RequestVoteArgs) (now : ℕ) (reply : RequestVoteReply)
      → handle_request_vote s args now ≡ some (s', reply)
      → NodeStep s s'
  append_entries :
      (args : AppendEntriesArgs) (now : ℕ) (reply : AppendEntriesReply)
      → handle_append_entries s args now ≡ some (s', reply)
      → NodeStep s s'
  install_snapshot :
      (args : InstallSnapshotArgs) (now : ℕ) (reply : InstallSnapshotReply)
      (restore : Option Restore)
      → handle_install_snapshot s args now ≡ some (s', reply, restore)
      → NodeStep s s'
  compact :
      (index : ℕ) (state : List ℕ) → take_snapshot s index state ≡ some (ok s') → NodeStep s s'
  pre_vote_reply :
      (votes : ℕ) (reply : RequestVoteReply) (now : ℕ)
      → s' ≡ (on_pre_vote_reply s votes reply now).0
      → NodeStep s s'
  election :
      (now : ℕ) (messages : List Outgoing)
      → start_election s now ≡ some (s', messages)
      → NodeStep s s'
  vote_reply :
      (term votes : ℕ) (reply : RequestVoteReply) (now : ℕ) (messages : List Outgoing) (votes' : ℕ)
      → on_vote_reply s term votes reply now ≡ some ((s', messages), votes')
      → NodeStep s s'
  append_reply :
      (target : String) (term : ℕ) (reply : AppendEntriesReply) (now : ℕ) (messages : List Outgoing)
      → on_append_reply s target term reply now ≡ some (s', messages)
      → NodeStep s s'
  snapshot_reply :
      (target : String) (term sent : ℕ) (reply : InstallSnapshotReply) (now : ℕ)
      → s' ≡ on_snapshot_reply s target term sent reply now
      → NodeStep s s'
  proposal :
      (payload : Option (List ℕ)) (messages : List Outgoing) (p : Proposal)
      → propose s payload ≡ some (ok ((s', messages), p))
      → NodeStep s s'
  applier : (handed : List LogEntry) → apply_committed s ≡ some (s', handed) → NodeStep s s'

pub data Reach (s : RaftNode) : RaftNode → Type 0 where
  here : Reach s s
  next : {t u : RaftNode} → Reach s t → NodeStep t u → Reach s u

-- Every election on the way starts at a term whose successor fits 64 bits; from the last term of 64
-- bits `currentTerm++` goes to 0.
abbrev pub IsStepUnwrapped : {s s' : RaftNode} → NodeStep s s' → Type 0
IsStepUnwrapped {s} (election now messages h) = s.current_term + 1 < 2 ^ 64
IsStepUnwrapped st = Unit {0}

abbrev pub IsUnwrapped : {s s' : RaftNode} → Reach s s' → Type 0
IsUnwrapped here = Unit {0}
IsUnwrapped (next r st) = IsUnwrapped r × IsStepUnwrapped st

-- The term does not fall, within a term a vote is not taken back or changed, and the node keeps its
-- name and its peers.
pub record Holds (s s' : RaftNode) : Type 0 where
  pub term : s.current_term ≤ s'.current_term
  pub vote : s'.current_term ≡ s.current_term → s.voted_for ≢ "" → s'.voted_for ≡ s.voted_for
  pub same_id : s'.id ≡ s.id
  pub same_peers : s'.peers ≡ s.peers

pub record SameBallot (s s' : RaftNode) : Type 0 where
  pub same_term : s'.current_term ≡ s.current_term
  pub same_vote : s'.voted_for ≡ s.voted_for
  pub same_role : s'.role ≡ s.role
  pub id_kept : s'.id ≡ s.id
  pub peers_kept : s'.peers ≡ s.peers
