-- ===== src/Raft/Cluster/Quiet.antt =====
-- Which steps of a node of raft/consensus.go can make it a leader.
use Prim.Native.String.{String}
use text.Mathlib.TextEquality.{eq_iff}
use aegis_log.Common.{ℕ, [], ◌≡◌, sym, ◌∙◌, arith, false, Option, some, List, ok}
use aegis_log.Raft.Types.{
  leader, RaftNode, RequestVoteArgs, RequestVoteReply, AppendEntriesArgs, AppendEntriesReply,
  LogEntry, InstallSnapshotArgs, InstallSnapshotReply, Outgoing,
}
use aegis_log.Raft.Node.{step_down}
use aegis_log.Raft.Handlers.{
  handle_request_vote, handle_append_entries, follow, answer_vote, handle_install_snapshot, Restore,
  take_snapshot,
}
use aegis_log.Raft.Election.{
  on_pre_vote_reply, on_vote_reply, on_append_reply, on_snapshot_reply, propose, Proposal,
  apply_committed,
}
use aegis_log.Raft.Ballot.{
  NodeStep, IsStepUnwrapped, request_vote, append_entries, install_snapshot, compact,
  pre_vote_reply, election, vote_reply, append_reply, snapshot_reply, proposal, applier,
}
use aegis_log.Raft.Ballot.Steps.{
  accept_entries-SameBallot, check_and_update-SameBallot, acknowledged, apply_loop-SameBallot,
}
use aegis_log.Raft.Cluster.{IsQuiet}
use mathlib.Core.Path.{subst}

-- A leader after the step was one before it, of the same term.
abbrev pub Led : RaftNode → RaftNode → Type 0
Led s s' = s'.role ≡ leader → (s.role ≡ leader) × (s'.current_term ≡ s.current_term)

answer_vote-Led :
    (s : RaftNode) (args : RequestVoteArgs) (now : ℕ) {s' : RaftNode} {r : RequestVoteReply}
    → answer_vote s args now ≡ some (s', r)
    → (s'.role ≡ s.role) × (s'.current_term ≡ s.current_term)
unfolding answer_vote
answer_vote-Led s args now h = ground (arith, eq_iff s.voted_for "")

handle_request_vote-Led :
    (s : RaftNode) (args : RequestVoteArgs) (now : ℕ) {s' : RaftNode} {r : RequestVoteReply}
    → handle_request_vote s args now ≡ some (s', r)
    → Led s s'
unfolding handle_request_vote step_down
handle_request_vote-Led s args now {s'} {r} h l = ground (
  arith,
  answer_vote-Led s args now {s' = s'} {r = r},
  answer_vote-Led (step_down s args.term now) args now {s' = s'} {r = r},
)

handle_append_entries-Led :
    (s : RaftNode) (args : AppendEntriesArgs) (now : ℕ) {s' : RaftNode} {r : AppendEntriesReply}
    → handle_append_entries s args now ≡ some (s', r)
    → Led s s'
unfolding handle_append_entries step_down
handle_append_entries-Led s args now {s'} {r} h l = ground (
  arith,
  accept_entries-SameBallot (follow s args.leader_id now) args {s' = s'} {r = r},
  accept_entries-SameBallot (follow (step_down s args.term now) args.leader_id now) args {s' = s'}
      {r = r},
)

handle_install_snapshot-Led :
    (s : RaftNode) (args : InstallSnapshotArgs) (now : ℕ) {s' : RaftNode} {r : InstallSnapshotReply}
    {restore : Option Restore}
    → handle_install_snapshot s args now ≡ some (s', r, restore)
    → Led s s'
unfolding handle_install_snapshot step_down
handle_install_snapshot-Led s args now h l = ground arith

take_snapshot-Led :
    (s : RaftNode) (index : ℕ) (state : List ℕ) {s' : RaftNode}
    → take_snapshot s index state ≡ some (ok s')
    → Led s s'
unfolding take_snapshot
take_snapshot-Led s index state h l = ground arith

on_pre_vote_reply-Led :
    (s : RaftNode) (votes : ℕ) (reply : RequestVoteReply) (now : ℕ)
    → Led s (on_pre_vote_reply s votes reply now).0
unfolding on_pre_vote_reply step_down
on_pre_vote_reply-Led s votes reply now l = ground arith

on_vote_reply-Led :
    (s : RaftNode) (term votes : ℕ) (reply : RequestVoteReply) (now : ℕ) {s' : RaftNode}
    {messages : List Outgoing} {votes' : ℕ}
    → reply.vote_granted ≡ false
    → on_vote_reply s term votes reply now ≡ some ((s', messages), votes')
    → Led s s'
unfolding on_vote_reply step_down
on_vote_reply-Led s term votes reply now g h l = ground arith

on_append_reply-Led :
    (s : RaftNode) (target : String) (term : ℕ) (reply : AppendEntriesReply) (now : ℕ)
    {s' : RaftNode} {messages : List Outgoing}
    → on_append_reply s target term reply now ≡ some (s', messages)
    → Led s s'
unfolding on_append_reply step_down
on_append_reply-Led s target term reply now {s'} {messages} h l = ground (
  arith,
  check_and_update-SameBallot (acknowledged s target reply.match_index) {s' = s'}
      {messages = messages},
)

on_snapshot_reply-Led :
    (s : RaftNode) (target : String) (term sent : ℕ) (reply : InstallSnapshotReply) (now : ℕ)
    → Led s (on_snapshot_reply s target term sent reply now)
unfolding on_snapshot_reply step_down
on_snapshot_reply-Led s target term sent reply now l = ground arith

propose-Led :
    (s : RaftNode) (payload : Option (List ℕ)) {s' : RaftNode} {messages : List Outgoing}
    {p : Proposal}
    → propose s payload ≡ some (ok ((s', messages), p))
    → Led s s'
unfolding propose
propose-Led s payload h l = ground arith

apply_committed-Led :
    (s : RaftNode) {s' : RaftNode} {handed : List LogEntry}
    → apply_committed s ≡ some (s', handed)
    → Led s s'
unfolding apply_committed
apply_committed-Led s h l =
    let b = apply_loop-SameBallot _ s [] h in (sym b.same_role ∙ l, b.same_term)

pub IsQuiet-Led : (s s' : RaftNode) (st : NodeStep s s') → IsQuiet st → Led s s'
IsQuiet-Led s s' (request_vote args now reply h) q = handle_request_vote-Led s args now h
IsQuiet-Led s s' (append_entries args now reply h) q = handle_append_entries-Led s args now h
IsQuiet-Led s s' (install_snapshot args now reply restore h) q =
    handle_install_snapshot-Led s args now h
IsQuiet-Led s s' (compact index state h) q = take_snapshot-Led s index state h
IsQuiet-Led s s' (pre_vote_reply votes reply now h) q =
    subst (Led s) (sym h) (on_pre_vote_reply-Led s votes reply now)
IsQuiet-Led s s' (election now messages h) q = absurd q
IsQuiet-Led s s' (vote_reply term votes reply now messages votes' h) q =
    on_vote_reply-Led s term votes reply now q h
IsQuiet-Led s s' (append_reply target term reply now messages h) q =
    on_append_reply-Led s target term reply now h
IsQuiet-Led s s' (snapshot_reply target term sent reply now h) q =
    subst (Led s) (sym h) (on_snapshot_reply-Led s target term sent reply now)
IsQuiet-Led s s' (proposal payload messages p h) q = propose-Led s payload h
IsQuiet-Led s s' (applier handed h) q = apply_committed-Led s h

pub IsQuiet-Unwrapped : (s s' : RaftNode) (st : NodeStep s s') → IsQuiet st → IsStepUnwrapped st
IsQuiet-Unwrapped s s' (request_vote args now reply h) q = tt
IsQuiet-Unwrapped s s' (append_entries args now reply h) q = tt
IsQuiet-Unwrapped s s' (install_snapshot args now reply restore h) q = tt
IsQuiet-Unwrapped s s' (compact index state h) q = tt
IsQuiet-Unwrapped s s' (pre_vote_reply votes reply now h) q = tt
IsQuiet-Unwrapped s s' (election now messages h) q = absurd q
IsQuiet-Unwrapped s s' (vote_reply term votes reply now messages votes' h) q = tt
IsQuiet-Unwrapped s s' (append_reply target term reply now messages h) q = tt
IsQuiet-Unwrapped s s' (snapshot_reply target term sent reply now h) q = tt
IsQuiet-Unwrapped s s' (proposal payload messages p h) q = tt
IsQuiet-Unwrapped s s' (applier handed h) q = tt
