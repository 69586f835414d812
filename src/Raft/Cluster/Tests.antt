-- ===== src/Raft/Cluster/Tests.antt =====
-- An election among three nodes (raft/consensus.go), and the theorem about leaders on it.
use Prim.Native.String.{String}
use aegis_log.Common.{◌≡◌, refl, arith, true, false, List, [], ◌∷◌, inl}
use aegis_log.Common.Maps.{set}
use aegis_log.Raft.Types.{Config, RequestVoteArgs, RequestVoteReply, leader}
use aegis_log.Raft.Node.{
  new_raft_node, last_log_index, last_log_term, quorum, become_leader, broadcast_append_entries,
  message_for, get_log_term, get_log_slice,
}
use aegis_log.Raft.Handlers.{handle_request_vote, answer_vote}
use aegis_log.Raft.Election.{start_election, on_vote_reply}
use aegis_log.Raft.Cluster.{
  Cluster, Run, IsRunUnwrapped, IsStart, here, next, campaign, vote, count, set_counted,
}
use aegis_log.Raft.Cluster.Majority.{
  has, without, IsDistinct, length-without, has-without_self, without-IsDistinct,
}
use aegis_log.Raft.Cluster.Elected.{one_leader}

abbrev three : List String
three = "1" ∷ "2" ∷ "3" ∷ []

abbrev config_of : String → Config
config_of a = record {
  id = a;
  peers = without a three;
  election_min_ms = 350;
  election_max_ms = 700;
  heartbeat_interval = 80;
  on_commit = true;
  on_restore_snapshot = true;
  initial_commit_index = 0;
}

abbrev started : Cluster
started = record {
  nodes = λ a. new_raft_node (config_of a) 0;
  votes = [];
  counted = λ c t. [];
  waiting = λ c t. [];
}

three-IsDistinct : IsDistinct three
unfolding has
three-IsDistinct = (refl, (refl, (refl, tt)))

started-IsStart : IsStart three started
unfolding new_raft_node has
started-IsStart = record {
  no_votes = refl;
  none_counted = λ c t. refl;
  none_waiting = λ c t. refl;
  named = λ a. refl;
  non_empty = refl;
  sized = λ a m. omega (arith, length-without a three m);
  different = λ a m.
      (has-without_self a three three-IsDistinct, without-IsDistinct a three three-IsDistinct);
  no_leader = λ a h. cc;
}

abbrev ballot_of_1 : RequestVoteArgs
ballot_of_1 = record {
  term = 1;
  candidate_id = "1";
  last_log_index = 0;
  last_log_term = 0;
  is_pre_vote = false;
}

abbrev granted : RequestVoteReply
granted = record { term = 1; vote_granted = true }

-- Node 1 stands, node 2 votes for it, and node 1 counts the vote and leads.
elected :
    (x : Cluster) × (run : Run three started x) × IsRunUnwrapped three run
    × ((x.nodes "1").role ≡ leader)
unfolding new_raft_node last_log_index last_log_term quorum start_election handle_request_vote
    answer_vote on_vote_reply become_leader broadcast_append_entries message_for has set set_counted
    get_log_term get_log_slice without
elected = (
  _,
  next
      (next (next here (campaign "1" 500 refl refl))
        (vote "2" ballot_of_1 510 refl refl refl refl refl))
      (count "1" "2" 1 granted 520 (inl (refl, refl, refl)) refl refl refl),
  (((tt, omega arith), tt), tt),
  refl,
)

one_leader_example : ◌≡◌ {A = String} "1" "1"
one_leader_example =
    one_leader three started elected.0 "1" "1" started-IsStart elected.1 elected.2 elected.3
      elected.3 refl
