-- ===== src/Raft/Vote.antt =====
-- Pre-votes and elections of raft/consensus.go.
use text.Mathlib.TextEquality.{eq_iff}
use aegis_log.Common.{
  ◌-◌, refl, ℕ, ◌+◌, ◌≤◌, ◌<◌, ◌≡◌, arith, true, not, some, length, ◌⊎◌, ◌&&◌, leb,
}
use aegis_log.Raft.Types.{RaftNode, RequestVoteArgs, RequestVoteReply}
use aegis_log.Raft.Node.{step_down, last_log_index, last_log_term}
use aegis_log.Raft.Handlers.{handle_request_vote, answer_vote, log_ok, heard_recently}
use aegis_log.Raft.Log.{IsWellFormed, last_log_index-eq}

-- When a node lets a candidate go to an election.
pub record IsPreVoted (s : RaftNode) (args : RequestVoteArgs) (now last_index last_term : ℕ)
    : Type 0 where
  pub in_term : s.current_term ≤ args.term
  pub no_leader : (s.leader_id ≡ "") ⊎ (s.cfg.election_min_ms ≤ now - s.election_reset_event)
  pub up_to_date :
      (last_term < args.last_log_term)
      ⊎ ((args.last_log_term ≡ last_term) × (last_index ≤ args.last_log_index))

pre_vote_reply :
    (s : RaftNode) (args : RequestVoteArgs) (now : ℕ) {last_index last_term : ℕ}
    → last_log_index s ≡ some last_index
    → last_log_term s ≡ some last_term
    → args.is_pre_vote ≡ true
    → handle_request_vote s args now
      ≡ some (
        s,
        record {
          term = s.current_term;
          vote_granted =
              leb s.current_term args.term
              && (not (heard_recently s now) && log_ok args last_index last_term);
        },
      )
unfolding handle_request_vote answer_vote
pre_vote_reply s args now i t p = ground arith

-- On a node whose log has a last entry, the handler answers every pre-vote request with the node's term and leaves the node as it was. It grants the pre-vote exactly when the term asked for is not behind, the node knows no leader or the minimum election timeout has passed since the last reset, and the candidate's last entry is not behind the node's own, by term and then by index.
pub pre_vote_answer :
    (s : RaftNode) (args : RequestVoteArgs) (now : ℕ) {last_index last_term : ℕ}
    → last_log_index s ≡ some last_index
    → last_log_term s ≡ some last_term
    → args.is_pre_vote ≡ true
    → (r : RequestVoteReply) × (handle_request_vote s args now ≡ some (s, r))
      × (r.term ≡ s.current_term)
      × (r.vote_granted ≡ true → IsPreVoted s args now last_index last_term)
      × (IsPreVoted s args now last_index last_term → r.vote_granted ≡ true)
pre_vote_answer s args now i t p = (
  _,
  pre_vote_reply s args now i t p,
  refl,
  λ g. record {
    in_term = ground arith;
    no_leader = ground (arith, eq_iff s.leader_id "");
    up_to_date = ground arith;
  },
  λ v. ground (arith, eq_iff s.leader_id "", v.in_term, v.no_leader, v.up_to_date),
)

-- A vote of a well-formed node, and a pre-vote too, goes only to a candidate whose last entry is not behind the node's own, by term and then by index.
pub vote_up_to_date :
    (s : RaftNode) (args : RequestVoteArgs) (now : ℕ) {s' : RaftNode} {r : RequestVoteReply} {t : ℕ}
    → IsWellFormed s
    → last_log_term s ≡ some t
    → handle_request_vote s args now ≡ some (s', r)
    → r.vote_granted ≡ true
    → (t < args.last_log_term)
      ⊎ ((args.last_log_term ≡ t)
          × (s.last_included_index + length s.log ≤ args.last_log_index + 1))
unfolding handle_request_vote answer_vote step_down last_log_index last_log_term
vote_up_to_date s args now w t h g = ground (arith, last_log_index-eq s w)
