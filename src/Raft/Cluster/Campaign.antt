-- ===== src/Raft/Cluster/Campaign.antt =====
-- Starting an election keeps the votes and the nodes of a cluster in agreement
-- (raft/consensus.go, `startElection`).
use Prim.Native.String.{String}
use mathlib.Core.Path.{subst}
use aegis_log.Common.{
  ℕ, ◌+◌, ◌^◌, ◌<◌, ◌≡◌, refl, sym, ap, ◌∙◌, arith, true, List, [], ◌∷◌, length, some, inl, inr,
}
use aegis_log.Common.Maps.{set, set-each}
use aegis_log.Raft.Types.{RaftNode, Outgoing}
use aegis_log.Raft.Election.{start_election}
use aegis_log.Raft.Ballot.{election}
use aegis_log.Raft.Ballot.Once.{NodeStep-Holds}
use aegis_log.Raft.Cluster.{Vote, Cluster, Gave, set_counted, next_term}
use aegis_log.Raft.Cluster.Majority.{has, Apart-single}
use aegis_log.Raft.Cluster.Counted.{set_counted_self, set_counted_other, set_counted-both}
use aegis_log.Raft.Cluster.Safe.{
  Fits, Tally, Tally-vote, IsSafe, Fits-Holds, Fits-grows, Fits-vote, Fits-vote_elsewhere,
}
use aegis_log.Raft.Cluster.Outcomes.{start_election-IsCampaign}
use aegis_log.Raft.Cluster.Voting.{candidate_real}

module _ (members : List String) (w : Cluster) (k : IsSafe members w) where
  module _ (c : String) (now : ℕ) {s' : RaftNode} {messages : List Outgoing}
      (r : (w.nodes c).current_term + 1 < 2 ^ 64)
      (h : start_election (w.nodes c) now ≡ some (s', messages)) where
    pub campaign-IsSafe :
        has c members ≡ true
        → IsSafe members (record {
          nodes = set w.nodes c s';
          votes = record { voter = c; candidate = c; term = next_term (w.nodes c) } ∷ w.votes;
          counted = set_counted w.counted c (next_term (w.nodes c)) (c ∷ []);
          waiting = set_counted w.waiting c (next_term (w.nodes c)) (w.nodes c).peers;
        })
    campaign-IsSafe m =
        let s = w.nodes c in
        let t = next_term s in
        let succ : t ≡ s.current_term + 1 = omega arith in
        let b : Vote = record { voter = c; candidate = c; term = t } in
        let own = start_election-IsCampaign s now r h in
        let f' = set_counted w.counted c t (c ∷ []) in
        record {
          fits =
              set-each (λ a s. Fits members (b ∷ w.votes) f' a s) w.nodes c s'
                (Fits-vote s' b
                  (λ e. (omega (arith, own.next_term, succ), own.own_vote ∙ (k.fits c).named))
                  (Fits-Holds s s' (candidate_real members w k c)
                    (NodeStep-Holds s s' (election now messages h) r)
                    (λ l.
                      let small = own.alone l in
                      let one : length (f' c s'.current_term) ≡ 1 =
                        ap (λ u. length (f' c u)) (own.next_term ∙ sym succ)
                        ∙ ap (length {A = String}) (set_counted_self w.counted c t (c ∷ [])) in
                      omega (arith, (k.fits c).sized m, small, one))
                    (k.fits c)))
                (λ a apart. Fits-vote_elsewhere (w.nodes a) b apart (
                  Fits-grows (w.nodes a)
                    (λ u. rw (set_counted_other w.counted c t (c ∷ []) a u apart) (omega arith))
                    (k.fits a)));
          real = λ a d u e. elim e [
            | inl (x, y, z) ↦
                (subst (λ a. has a members ≡ true) x m, subst (λ a. has a members ≡ true) y m)
            | inr old ↦ k.real a d u old
          ];
          non_empty = k.non_empty;
          once = λ a d d₁ u e f. elim e [
            | inl (x, y, z) ↦ elim f [
              | inl (x₁, y₁, z₁) ↦ sym y ∙ y₁
              | inr old ↦ absurd (
                  too_early d₁ (
                    subst (λ u. Gave w.votes c d₁ u) (sym z)
                      (subst (λ a. Gave w.votes a d₁ u) (sym x) old)))
            ]
            | inr old ↦ elim f [
              | inl (x, y, z) ↦ absurd (
                  too_early d (
                    subst (λ u. Gave w.votes c d u) (sym z)
                      (subst (λ a. Gave w.votes a d u) (sym x) old)))
              | inr old₁ ↦ k.once a d d₁ u old old₁
            ]
          ];
          tallied =
              let (alone, different) = (k.fits c).different m in
              set_counted-both w.counted w.waiting c t (c ∷ []) s.peers (Tally (b ∷ w.votes))
                (record {
                  once_each = (unfold has in refl, tt);
                  given = (inl (refl, refl, refl), tt);
                  asked_once = different;
                  not_yet = Apart-single c s.peers alone;
                })
                (λ d u. Tally-vote w.votes b d u (w.counted d u) (w.waiting d u) (k.tallied d u));
        }
      where
        too_early : (d : String) → Gave w.votes c d (next_term (w.nodes c)) → ⊥
        too_early d g = omega (arith, r, ((k.fits c).held d _ g).0)
