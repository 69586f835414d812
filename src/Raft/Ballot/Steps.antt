-- ===== src/Raft/Ballot/Steps.antt =====
-- Each step of raft/consensus.go keeps the term and the vote, or moves to a later term.
use Prim.Native.String.{String}
use aegis_log.Common.{
  ℕ, zero, suc, ◌+◌, ◌-◌, ◌^◌, ◌<◌, ◌≡◌, refl, arith, Option, some, List, [], ◌∷◌, ◌++◌, u64, drop,
  ok, inl, inr, Option-cases,
}
use aegis_log.Raft.Types.{
  leader, RaftNode, LogEntry, RequestVoteArgs, RequestVoteReply, AppendEntriesArgs,
  AppendEntriesReply, InstallSnapshotArgs, InstallSnapshotReply, Outgoing,
}
use aegis_log.Raft.Node.{
  step_down, update, notify, reset_peers, become_leader, check_and_update_commit_index,
  last_log_index,
}
use aegis_log.Raft.Handlers.{
  handle_request_vote, put_entry, put_entries, advance_commit, store_entries, handle_append_entries,
  accept_entries, follow, answer_vote, handle_install_snapshot, Restore, take_snapshot,
}
use aegis_log.Raft.Election.{
  campaign, on_pre_vote_reply, start_election, on_vote_reply, on_append_reply, on_snapshot_reply,
  propose, Proposal, apply_loop, apply_committed, apply_one,
}
use text.Mathlib.TextEquality.{eq_iff}
use aegis_log.Raft.Ballot.{Holds, SameBallot}

put_entry-SameBallot :
    (s : RaftNode) (idx : ℕ) (e : LogEntry) {s' : RaftNode}
    → put_entry s idx e ≡ some s'
    → SameBallot s s'
unfolding put_entry
put_entry-SameBallot s idx e h = ground arith

put_entries-SameBallot :
    (es : List LogEntry) (s : RaftNode) (idx : ℕ) {s' : RaftNode}
    → put_entries s idx es ≡ some s'
    → SameBallot s s'
unfolding put_entries
put_entries-SameBallot [] s idx h = ground arith
put_entries-SameBallot (e ∷ es) s idx h = elim (Option-cases (put_entry s idx e)) [
  | inl fault ↦ cc
  | inr (mid, p) ↦ ground (
    arith,
    put_entry-SameBallot s idx e p,
    put_entries-SameBallot es mid (u64 (idx + 1)) (rw p at h),
  )
]

store_entries-SameBallot :
    (s : RaftNode) (prev prev_term : ℕ) (es : List LogEntry) (lc : ℕ) {s' : RaftNode}
    {r : AppendEntriesReply}
    → store_entries s prev prev_term es lc ≡ some (s', r)
    → SameBallot s s'
unfolding store_entries advance_commit notify
store_entries-SameBallot s prev pt es lc h =
    elim (Option-cases (put_entries s (u64 (prev + 1)) es)) [
      | inl fault ↦ ground arith
      | inr (mid, p) ↦ ground (arith, put_entries-SameBallot es s (u64 (prev + 1)) p)
    ]

pub accept_entries-SameBallot :
    (s : RaftNode) (args : AppendEntriesArgs) {s' : RaftNode} {r : AppendEntriesReply}
    → accept_entries s args ≡ some (s', r)
    → SameBallot s s'
unfolding accept_entries
accept_entries-SameBallot s args {s'} {r} h = ground (
  arith,
  store_entries-SameBallot s args.prev_log_index args.prev_log_term args.entries args.leader_commit
      {s' = s'} {r = r},
  store_entries-SameBallot s s.last_included_index s.last_included_term
      (drop (s.last_included_index - args.prev_log_index) args.entries) args.leader_commit {s' = s'}
      {r = r},
)

-- Moving to a later term is always allowed.
step_down-Holds :
    (s s' : RaftNode) (t now : ℕ)
    → s.current_term < t
    → SameBallot (step_down s t now) s'
    → Holds s s'
unfolding step_down
step_down-Holds s s' t now h b = record {
  term = omega (arith, b.same_term);
  vote = λ e. absurd (omega (arith, b.same_term));
  same_id = b.id_kept;
  same_peers = b.peers_kept;
}

SameBallot-Holds : {s s' : RaftNode} → SameBallot s s' → Holds s s'
SameBallot-Holds b = record {
  term = omega (arith, b.same_term);
  vote = λ e v. b.same_vote;
  same_id = b.id_kept;
  same_peers = b.peers_kept;
}

pub handle_append_entries-Holds :
    (s : RaftNode) (args : AppendEntriesArgs) (now : ℕ) {s' : RaftNode} {r : AppendEntriesReply}
    → handle_append_entries s args now ≡ some (s', r)
    → Holds s s'
unfolding handle_append_entries step_down
handle_append_entries-Holds s args now {s'} {r} h = ground (
  arith,
  accept_entries-SameBallot (follow s args.leader_id now) args {s' = s'} {r = r},
  accept_entries-SameBallot (follow (step_down s args.term now) args.leader_id now) args {s' = s'}
      {r = r},
)

answer_vote-Holds :
    (s : RaftNode) (args : RequestVoteArgs) (now : ℕ) {s' : RaftNode} {r : RequestVoteReply}
    → answer_vote s args now ≡ some (s', r)
    → Holds s s' × (s'.current_term ≡ s.current_term)
unfolding answer_vote
answer_vote-Holds s args now h =
    ground (arith, eq_iff s.voted_for "", eq_iff s.voted_for args.candidate_id)

pub handle_request_vote-Holds :
    (s : RaftNode) (args : RequestVoteArgs) (now : ℕ) {s' : RaftNode} {r : RequestVoteReply}
    → handle_request_vote s args now ≡ some (s', r)
    → Holds s s'
unfolding handle_request_vote step_down
handle_request_vote-Holds s args now {s'} {r} h = ground (
  arith,
  answer_vote-Holds s args now {s' = s'} {r = r},
  answer_vote-Holds (step_down s args.term now) args now {s' = s'} {r = r},
)

pub handle_install_snapshot-Holds :
    (s : RaftNode) (args : InstallSnapshotArgs) (now : ℕ) {s' : RaftNode} {r : InstallSnapshotReply}
    {restore : Option Restore}
    → handle_install_snapshot s args now ≡ some (s', r, restore)
    → Holds s s'
unfolding handle_install_snapshot step_down
handle_install_snapshot-Holds s args now h = ground arith

pub take_snapshot-Holds :
    (s : RaftNode) (index : ℕ) (state : List ℕ) {s' : RaftNode}
    → take_snapshot s index state ≡ some (ok s')
    → Holds s s'
unfolding take_snapshot
take_snapshot-Holds s index state h = ground arith

reset_peers-SameBallot :
    (ps : List String) (last : ℕ) (s : RaftNode) → SameBallot s (reset_peers ps last s)
unfolding reset_peers
reset_peers-SameBallot [] last s = record {
  same_term = refl;
  same_vote = refl;
  same_role = refl;
  id_kept = refl;
  peers_kept = refl;
}
reset_peers-SameBallot (p ∷ ps) last s =
    let b = reset_peers-SameBallot ps last (record s {
      next_index = update s.next_index p (u64 (last + 1));
      match_index = update s.match_index p 0;
    }) in
    record {
      same_term = b.same_term;
      same_vote = b.same_vote;
      same_role = b.same_role;
      id_kept = b.id_kept;
      peers_kept = b.peers_kept;
    }

pub become_leader-SameBallot :
    (s : RaftNode) {s' : RaftNode} {messages : List Outgoing}
    → become_leader s ≡ some (s', messages)
    → SameBallot (record s { role = leader; leader_id = s.id }) s'
unfolding become_leader
become_leader-SameBallot s h = elim (Option-cases (last_log_index s)) [
  | inl fault ↦ ground arith
  | inr (last, p) ↦
      let won = record s { role = leader; leader_id = s.id } in
      let reset = reset_peers-SameBallot s.peers last won in
      ground
        (arith, reset.same_term, reset.same_vote, reset.same_role, reset.id_kept, reset.peers_kept)
]

pub check_and_update-SameBallot :
    (s : RaftNode) {s' : RaftNode} {messages : List Outgoing}
    → check_and_update_commit_index s ≡ some (s', messages)
    → SameBallot s s'
unfolding check_and_update_commit_index notify
check_and_update-SameBallot s h = ground arith

pub on_pre_vote_reply-Holds :
    (s : RaftNode) (votes : ℕ) (reply : RequestVoteReply) (now : ℕ)
    → Holds s (on_pre_vote_reply s votes reply now).0
unfolding on_pre_vote_reply step_down
on_pre_vote_reply-Holds s votes reply now = ground arith

pub start_election-Holds :
    (s : RaftNode) (now : ℕ) {s' : RaftNode} {messages : List Outgoing}
    → s.current_term + 1 < 2 ^ 64
    → start_election s now ≡ some (s', messages)
    → Holds s s'
unfolding start_election
start_election-Holds s now {s'} {messages} r h =
    ground (arith, become_leader-SameBallot (campaign s now) {s' = s'} {messages = messages})

pub on_vote_reply-Holds :
    (s : RaftNode) (term votes : ℕ) (reply : RequestVoteReply) (now : ℕ) {s' : RaftNode}
    {messages : List Outgoing} {votes' : ℕ}
    → on_vote_reply s term votes reply now ≡ some ((s', messages), votes')
    → Holds s s'
unfolding on_vote_reply step_down
on_vote_reply-Holds s term votes reply now {s'} {messages} h =
    ground (arith, become_leader-SameBallot s {s' = s'} {messages = messages})

-- The state that a successful reply leads to.
abbrev pub acknowledged : RaftNode → String → ℕ → RaftNode
acknowledged s target at = record s {
  next_index = update s.next_index target (u64 (at + 1));
  match_index = update s.match_index target at;
}

pub on_append_reply-Holds :
    (s : RaftNode) (target : String) (term : ℕ) (reply : AppendEntriesReply) (now : ℕ)
    {s' : RaftNode} {messages : List Outgoing}
    → on_append_reply s target term reply now ≡ some (s', messages)
    → Holds s s'
unfolding on_append_reply step_down
on_append_reply-Holds s target term reply now {s'} {messages} h = ground (
  arith,
  check_and_update-SameBallot (acknowledged s target reply.match_index) {s' = s'}
      {messages = messages},
)

pub on_snapshot_reply-Holds :
    (s : RaftNode) (target : String) (term sent : ℕ) (reply : InstallSnapshotReply) (now : ℕ)
    → Holds s (on_snapshot_reply s target term sent reply now)
unfolding on_snapshot_reply step_down
on_snapshot_reply-Holds s target term sent reply now = ground arith

pub propose-Holds :
    (s : RaftNode) (payload : Option (List ℕ)) {s' : RaftNode} {messages : List Outgoing}
    {p : Proposal}
    → propose s payload ≡ some (ok ((s', messages), p))
    → Holds s s'
unfolding propose
propose-Holds s payload h = ground arith

pub apply_loop-SameBallot :
    (fuel : ℕ) (s : RaftNode) (out : List LogEntry) {s' : RaftNode} {handed : List LogEntry}
    → apply_loop fuel s out ≡ some (s', handed)
    → SameBallot s s'
unfolding apply_loop
apply_loop-SameBallot zero s out h = ground arith
apply_loop-SameBallot (suc fuel) s out {s'} {handed} h =
    let applied = u64 (s.last_applied + 1) in
    elim (Option-cases (apply_one s applied)) [
      | inl fault ↦ ground arith
      | inr (one, p) ↦ ground (
        arith,
        apply_loop-SameBallot fuel (record s { last_applied = applied }) (out ++ one) {s' = s'}
            {handed = handed},
      )
    ]

pub apply_committed-Holds :
    (s : RaftNode) {s' : RaftNode} {handed : List LogEntry}
    → apply_committed s ≡ some (s', handed)
    → Holds s s'
unfolding apply_committed
apply_committed-Holds s h = SameBallot-Holds (apply_loop-SameBallot _ s [] h)
