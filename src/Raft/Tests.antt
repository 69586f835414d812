-- ===== src/Raft/Tests.antt =====
-- Runs of raft/consensus.go on small nodes, and the theorems at concrete inputs.
use Prim.Native.String.{String}
use text.Mathlib.Text.{◌==◌ as str_eq}
use text.Mathlib.TextEquality.{eq_iff}
use mathlib.Core.Bool.{false≢true}
use aegis_log.Common.{
  ℕ, ◌≤◌, ◌<◌, ◌≡◌, ◌≢◌, refl, arith, Bool, true, false, Option, some, none, List, [], ◌∷◌, ok, ◌⊎◌,
  All, if◌then◌else◌,
}
use aegis_log.Common.Faults.{Paired}
use aegis_log.Raft.Types.{
  follower, candidate, leader, LogEntry, RequestVoteArgs, RequestVoteReply, AppendEntriesArgs,
  AppendEntriesReply, InstallSnapshotArgs, Config, RaftNode, Outgoing,
}
use aegis_log.Raft.Node.{
  last_log_index, last_log_term, get_log_term, find_commit, check_and_update_commit_index,
  stored_by, quorum, broadcast_append_entries, become_leader, get_log_slice,
}
use aegis_log.Raft.Handlers.{
  handle_request_vote, answer_vote, handle_append_entries, accept_entries, store_entries,
  take_snapshot, handle_install_snapshot, Restore,
}
use aegis_log.Raft.Election.{apply_committed, on_vote_reply, propose, Proposal, await, poll}
use aegis_log.Raft.Log.{IsWellFormed}
use aegis_log.Raft.Append.Outcome.{IsRequest}
use aegis_log.Raft.Append.Safety.{
  IsAppended, CommitChange, handle_append_entries-IsWellFormed, append_stores, append_commits,
}
use aegis_log.Raft.Append.Accept.{IsAccepted, append_answers}
use aegis_log.Raft.Ballot.{Holds, Reach, here, next, compact}
use aegis_log.Raft.Ballot.Once.{Reach-Holds, vote_once}
use aegis_log.Raft.Vote.{IsPreVoted, pre_vote_answer, vote_up_to_date}
use aegis_log.Raft.Announce.{Announced, check_and_update-Announced}
use aegis_log.Raft.Commit.{Decision, check_and_update-Decision}
use aegis_log.Raft.Compact.Take.{IsSnapshot, take_snapshot-IsSnapshot}
use aegis_log.Raft.Compact.Install.{Outcome, handle_install_snapshot-Outcome}
use aegis_log.Raft.Apply.{delivered, apply_committed-eq}
use aegis_log.Raft.Leader.{
  IsFor, IsSendable, IsProposed, Saw, IsElected, broadcast-IsSendable, propose-IsProposed,
  await-Saw, on_vote_reply-IsElected,
}

abbrev entry : ℕ → ℕ → LogEntry
entry index term = record { index = index; term = term; payload = some (index ∷ []) }

abbrev blank : ℕ → ℕ → LogEntry
blank index term = record { index = index; term = term; payload = none }

abbrev config : Config
config = record {
  id = "1";
  peers = "2" ∷ "3" ∷ [];
  election_min_ms = 150;
  election_max_ms = 300;
  heartbeat_interval = 50;
  on_commit = true;
  on_restore_snapshot = true;
  initial_commit_index = 0;
}

-- A follower of three nodes in term 2, with entries 1 and 2 of term 1.
abbrev node : RaftNode
node = record {
  id = "1";
  peers = "2" ∷ "3" ∷ [];
  cfg = config;
  current_term = 2;
  voted_for = "";
  log = blank 0 0 ∷ entry 1 1 ∷ entry 2 1 ∷ [];
  commit_index = 1;
  last_applied = 0;
  role = follower;
  leader_id = "";
  last_included_index = 0;
  last_included_term = 0;
  last_snapshot_data = [];
  next_index = λ p. 3;
  match_index = λ p. 0;
  election_reset_event = 10;
  commit_notify = 0;
  is_stopped = false;
}

node-IsWellFormed : IsWellFormed node
node-IsWellFormed = omega arith

-- Entry 2 of term 1 is replaced by one of term 2.
abbrev request : AppendEntriesArgs
request = record {
  term = 2;
  leader_id = "2";
  prev_log_index = 1;
  prev_log_term = 1;
  entries = entry 2 2 ∷ entry 3 2 ∷ [];
  leader_commit = 2;
}

request-IsRequest : IsRequest request
request-IsRequest = omega arith

abbrev stored_node : RaftNode
stored_node = record node {
  log = blank 0 0 ∷ entry 1 1 ∷ entry 2 2 ∷ entry 3 2 ∷ [];
  commit_index = 2;
  leader_id = "2";
  election_reset_event = 50;
  commit_notify = 1;
}

abbrev stored_reply : AppendEntriesReply
stored_reply = record { term = 2; success = true; match_index = 3 }

request_handled : handle_append_entries node request 50 ≡ some (stored_node, stored_reply)
unfolding handle_append_entries accept_entries store_entries last_log_index get_log_term
request_handled = refl

handle_append_entries-IsWellFormed_example :
    (s' : RaftNode) × (r : AppendEntriesReply) × (handle_append_entries node request 50
      ≡ some (s', r))
    × IsWellFormed s'
handle_append_entries-IsWellFormed_example =
    handle_append_entries-IsWellFormed node request 50 node-IsWellFormed request-IsRequest

append_stores_example : IsAppended node request stored_node.log 3
append_stores_example =
    append_stores node request 50 node-IsWellFormed request-IsRequest request_handled refl

append_answers_example :
    (stored_reply.success ≡ true → IsAccepted node request)
    × (IsAccepted node request → stored_reply.success ≡ true)
append_answers_example =
    append_answers node request 50 node-IsWellFormed request-IsRequest request_handled

append_commits_example : CommitChange node stored_node request stored_reply
append_commits_example =
    append_commits node request 50 node-IsWellFormed request-IsRequest request_handled

abbrev ballot_of : String → Bool → RequestVoteArgs
ballot_of name pre = record {
  term = 2;
  candidate_id = name;
  last_log_index = 2;
  last_log_term = 1;
  is_pre_vote = pre;
}

abbrev voted_node : RaftNode
voted_node = record node { voted_for = "2"; election_reset_event = 60 }

abbrev yes_reply : RequestVoteReply
yes_reply = record { term = 2; vote_granted = true }

ballot_granted : handle_request_vote node (ballot_of "2" false) 60 ≡ some (voted_node, yes_reply)
unfolding handle_request_vote answer_vote last_log_index last_log_term
ballot_granted = refl

-- The node is asked again by the same candidate after it took a snapshot.
abbrev short_node : RaftNode
short_node = record voted_node {
  log = blank 1 1 ∷ entry 2 1 ∷ [];
  last_included_index = 1;
  last_included_term = 1;
  last_snapshot_data = 7 ∷ [];
  last_applied = 1;
}

snapshot_taken : take_snapshot voted_node 1 (7 ∷ []) ≡ some (ok short_node)
unfolding take_snapshot get_log_term
snapshot_taken = refl

short_reached : Reach voted_node short_node
short_reached = next here (compact 1 (7 ∷ []) snapshot_taken)

ballot_again :
    handle_request_vote short_node (ballot_of "2" false) 70
    ≡ some (record short_node { election_reset_event = 70 }, yes_reply)
unfolding handle_request_vote answer_vote last_log_index last_log_term
ballot_again = refl

two-ne-empty : ◌≢◌ {A = String} "2" ""
two-ne-empty e = false≢true ((eq_iff "2" "").1 e)

vote_once_example : ◌≡◌ {A = String} "2" "2"
unfolding short_reached
vote_once_example =
    vote_once node voted_node short_node (record short_node { election_reset_event = 70 })
      (ballot_of "2" false) (ballot_of "2" false) 60 70 {r₁ = yes_reply} {r₂ = yes_reply} refl refl
      refl two-ne-empty ballot_granted refl short_reached (tt, tt) ballot_again refl

Reach-Holds_example : Holds voted_node short_node
unfolding short_reached
Reach-Holds_example = Reach-Holds voted_node short_node short_reached (tt, tt)

node_last : last_log_index node ≡ some 2
unfolding last_log_index
node_last = refl

node_last_term : last_log_term node ≡ some 1
unfolding last_log_term
node_last_term = refl

pre_vote_answer_example :
    (r : RequestVoteReply) × (handle_request_vote node (ballot_of "3" true) 60 ≡ some (node, r))
    × (r.term ≡ 2)
    × (r.vote_granted ≡ true → IsPreVoted node (ballot_of "3" true) 60 2 1)
    × (IsPreVoted node (ballot_of "3" true) 60 2 1 → r.vote_granted ≡ true)
pre_vote_answer_example = pre_vote_answer node (ballot_of "3" true) 60 node_last node_last_term refl

vote_up_to_date_example : (1 < 1) ⊎ ((◌≡◌ {A = ℕ} 1 1) × (3 ≤ 3))
vote_up_to_date_example =
    vote_up_to_date node (ballot_of "2" false) 60 node-IsWellFormed node_last_term ballot_granted
      refl

-- A leader of term 2 whose peer "2" stores everything up to entry 3.
abbrev chief : RaftNode
chief = record stored_node {
  role = leader;
  match_index = λ p. if str_eq p "2" then 3 else 0;
  commit_index = 1;
  commit_notify = 0;
}

chief-IsWellFormed : IsWellFormed chief
chief-IsWellFormed = omega arith

chief_commits :
    (messages : List Outgoing) × (check_and_update_commit_index chief
      ≡ some (record chief { commit_index = 3; commit_notify = 1 }, messages))
unfolding check_and_update_commit_index last_log_index find_commit get_log_term stored_by quorum
    broadcast_append_entries get_log_slice
chief_commits = (_, refl)

check_and_update-Decision_example :
    Decision chief (record chief { commit_index = 3; commit_notify = 1 }) 3
check_and_update-Decision_example =
    check_and_update-Decision chief (record chief { commit_index = 3; commit_notify = 1 })
      chief-IsWellFormed (chief_commits.1)

take_snapshot-IsSnapshot_example :
    (s' : RaftNode) × (take_snapshot voted_node 1 (7 ∷ []) ≡ some (ok s'))
    × IsSnapshot voted_node s' 1 (7 ∷ [])
take_snapshot-IsSnapshot_example =
    take_snapshot-IsSnapshot voted_node 1 (7 ∷ []) (omega arith) (omega arith) (omega arith)
      (omega arith)

abbrev snapshot : InstallSnapshotArgs
snapshot = record {
  term = 2;
  leader_id = "2";
  last_included_index = 1;
  last_included_term = 1;
  state = 9 ∷ [];
}

handle_install_snapshot-Outcome_example :
    (s' : RaftNode) × (restore : Option Restore) × (handle_install_snapshot node snapshot 80
      ≡ some (s', record { term = 2 }, restore))
    × Outcome node snapshot 80 s' restore
handle_install_snapshot-Outcome_example =
    handle_install_snapshot-Outcome node snapshot 80 node-IsWellFormed (omega arith)

apply_committed-eq_example :
    apply_committed stored_node
    ≡ some (record stored_node { last_applied = 2 }, delivered true (entry 1 1 ∷ entry 2 2 ∷ []))
apply_committed-eq_example =
    apply_committed-eq stored_node (omega arith) (omega arith) (omega arith)

broadcast-IsSendable_example :
    (messages : List Outgoing) × (broadcast_append_entries chief ≡ some messages)
    × All IsSendable messages
    × Paired (IsFor chief) chief.peers messages
broadcast-IsSendable_example = broadcast-IsSendable chief chief-IsWellFormed (λ p. omega arith)

check_and_update-Announced_example :
    (s' : RaftNode) × (messages : List Outgoing) × (check_and_update_commit_index chief
      ≡ some (s', messages))
    × IsWellFormed s'
    × Announced chief s' messages
check_and_update-Announced_example =
    check_and_update-Announced chief chief-IsWellFormed (λ p. omega arith)

propose-IsProposed_example :
    (s' : RaftNode) × (messages : List Outgoing) × (p : Proposal) × (propose chief (some (5 ∷ []))
      ≡ some (ok ((s', messages), p)))
    × IsProposed chief s' (some (5 ∷ [])) messages p
propose-IsProposed_example =
    propose-IsProposed chief (some (5 ∷ [])) chief-IsWellFormed (omega arith) (λ p. omega arith)
      refl

abbrev wanted : Proposal
wanted = record { index = 1; term = 2 }

await_acknowledged : await wanted (poll chief ∷ []) ≡ some (ok 1)
unfolding await
await_acknowledged = refl

await-Saw_example : (◌≡◌ {A = ℕ} 1 1) × Saw wanted (poll chief ∷ [])
await-Saw_example = await-Saw wanted (poll chief ∷ []) 1 await_acknowledged

abbrev runner : RaftNode
runner = record node { role = candidate; voted_for = "1" }

runner_wins :
    (s' : RaftNode) × (messages : List Outgoing) × (on_vote_reply runner 2 1 yes_reply 90
      ≡ some ((s', messages), 2))
    × (s'.role ≡ leader)
unfolding on_vote_reply quorum become_leader last_log_index broadcast_append_entries get_log_term
    get_log_slice
runner_wins = (_, _, refl, refl)

on_vote_reply-IsElected_example : IsElected runner 2 1 2 yes_reply
on_vote_reply-IsElected_example =
    on_vote_reply-IsElected runner (runner_wins.0) 2 1 2 yes_reply 90 (λ e. cc) (runner_wins.2)
      (runner_wins.3)
