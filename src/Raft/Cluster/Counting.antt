-- ===== src/Raft/Cluster/Counting.antt =====
-- Counting a vote keeps the votes and the nodes of a cluster in agreement (raft/consensus.go,
-- `startElection`).
use Prim.Native.String.{String}
use aegis_log.Common.{
  ℕ, ◌+◌, ◌*◌, ◌≤◌, ◌<◌, ◌≡◌, ◌∙◌, arith, false, List, length, ◌==◌, some, inl, inr, Bool-cases,
  true,
}
use aegis_log.Common.Maps.{set, set-each}
use aegis_log.Raft.Types.{RaftNode, RequestVoteReply, Outgoing, leader}
use aegis_log.Raft.Election.{on_vote_reply}
use aegis_log.Raft.Ballot.{vote_reply}
use aegis_log.Raft.Ballot.Once.{NodeStep-Holds}
use aegis_log.Raft.Cluster.{Cluster, Gave, set_counted, add_counted}
use aegis_log.Raft.Cluster.Majority.{
  has, without, All-without, without-IsDistinct, Apart-cons, has-without_self,
}
use aegis_log.Raft.Cluster.Counted.{set_counted_self, set_counted-both, set_counted-grows, All-has}
use aegis_log.Raft.Cluster.Safe.{Fits, Tally, IsSafe, Fits-Holds, Fits-grows}
use aegis_log.Raft.Cluster.Outcomes.{on_vote_reply-IsCounted}
use aegis_log.Raft.Cluster.Voting.{candidate_real}

module _ (members : List String) (w : Cluster) (k : IsSafe members w) where
  module _ (c v : String) (t : ℕ) (reply : RequestVoteReply) (now : ℕ) {s' : RaftNode}
      {messages : List Outgoing} {votes' : ℕ} (b : Gave w.votes v c t)
      (asked : has v (w.waiting c t) ≡ true)
      (h : on_vote_reply (w.nodes c) t (length (w.counted c t)) reply now
        ≡ some ((s', messages), votes')) where
    abbrev counted' : List String
    counted' = add_counted (w.counted c t) v votes'

    length-counted' :
        (length (w.counted c t) ≤ length counted')
        × (votes' ≡ length (w.counted c t) + 1 → length counted' ≡ votes')
    length-counted' = ground arith

    count-Tally : Tally w.votes c t counted' (without v (w.waiting c t))
    count-Tally =
        let old = k.tallied c t in
        let fresh : has v (w.counted c t) ≡ false =
          All-has (λ u. has u (w.counted c t) ≡ false) v (w.waiting c t) old.not_yet asked in
        let left = All-without (λ u. has u (w.counted c t) ≡ false) v (w.waiting c t) old.not_yet in
        let distinct = without-IsDistinct v (w.waiting c t) old.asked_once in
        elim (Bool-cases (votes' == length (w.counted c t))) [
          | inl same ↦ rw (same) (record {
            once_each = old.once_each;
            given = old.given;
            asked_once = distinct;
            not_yet = left;
          })
          | inr more ↦ rw (more) (record {
            once_each = (fresh, old.once_each);
            given = (b, old.given);
            asked_once = distinct;
            not_yet =
                Apart-cons v (w.counted c t) (without v (w.waiting c t))
                  (has-without_self v (w.waiting c t) old.asked_once) left;
          })
        ]

    count-led :
        s'.role ≡ leader
        → length members < 2 * length (set_counted w.counted c t counted' c s'.current_term)
    count-led l =
        let s = w.nodes c in
        let (same, how) = on_vote_reply-IsCounted s t (length (w.counted c t)) reply now h l in
        let (more, exact) = length-counted' in
        let grown = set_counted-grows w.counted c t counted' more c s.current_term in
        elim how [
          | inl was ↦ rw (same) (omega (arith, (k.fits c).led was, grown))
          | inr (e, counts, most) ↦
              let now_t : s'.current_term ≡ t = same ∙ e in
              rw (now_t, set_counted_self w.counted c t counted')
                (omega (arith, exact counts, most, (k.fits c).sized (k.real v c t b).1))
        ]

    pub count-IsSafe : IsSafe members (record {
      nodes = set w.nodes c s';
      votes = w.votes;
      counted = set_counted w.counted c t counted';
      waiting = set_counted w.waiting c t (without v (w.waiting c t));
    })
    count-IsSafe =
        let s = w.nodes c in
        let st = vote_reply t (length (w.counted c t)) reply now messages votes' h in
        let f' = set_counted w.counted c t counted' in
        let (more, exact) = length-counted' in
        record {
          fits =
              set-each (λ a s. Fits members w.votes f' a s) w.nodes c s'
                (Fits-Holds s s' (candidate_real members w k c) (NodeStep-Holds s s' st tt)
                  count-led (k.fits c))
                (λ a apart.
                  Fits-grows (w.nodes a) (λ u. set_counted-grows w.counted c t counted' more a u)
                    (k.fits a));
          real = k.real;
          non_empty = k.non_empty;
          once = k.once;
          tallied =
              set_counted-both w.counted w.waiting c t counted' (without v (w.waiting c t))
                (Tally w.votes) count-Tally k.tallied;
        }
