-- ===== src/Raft/Cluster/Voting.antt =====
-- Votes and quiet steps keep the votes and the nodes of a cluster in agreement
-- (raft/consensus.go, `HandleRequestVote`).
use Prim.Native.String.{String}
use mathlib.Core.Path.{subst}
use aegis_log.Common.{
  ℕ, ◌*◌, ◌<◌, ◌≡◌, ◌≢◌, sym, ◌∙◌, arith, true, false, List, ◌∷◌, length, some, inl, inr,
}
use aegis_log.Common.Maps.{set, set-each}
use aegis_log.Raft.Types.{RaftNode, RequestVoteArgs, RequestVoteReply, leader}
use aegis_log.Raft.Handlers.{handle_request_vote}
use aegis_log.Raft.Ballot.{NodeStep, request_vote}
use aegis_log.Raft.Ballot.Once.{NodeStep-Holds, handle_request_vote-Voted}
use aegis_log.Raft.Cluster.{Vote, Cluster, Gave, IsQuiet}
use aegis_log.Raft.Cluster.Majority.{has}
use aegis_log.Raft.Cluster.Quiet.{IsQuiet-Led, IsQuiet-Unwrapped}
use aegis_log.Raft.Cluster.Safe.{
  Fits, Tally-vote, IsSafe, Fits-Holds, Fits-vote, Fits-vote_elsewhere,
}

module _ (members : List String) (w : Cluster) (k : IsSafe members w) where
  pub candidate_real : (a c : String) (t : ℕ) → Gave w.votes a c t → c ≢ ""
  candidate_real a c t g e =
      cc (subst (λ n. has n members ≡ true) e (k.real a c t g).1, k.non_empty)

  quiet_led :
      (a : String) {s' : RaftNode} (st : NodeStep (w.nodes a) s')
      → IsQuiet st
      → s'.role ≡ leader
      → length members < 2 * length (w.counted a s'.current_term)
  quiet_led a {s'} st q l =
      let (was, same) = IsQuiet-Led (w.nodes a) s' st q l in
      subst (λ u. length members < 2 * length (w.counted a u)) (sym same) ((k.fits a).led was)

  pub other-IsSafe :
      (a : String) {s' : RaftNode} (st : NodeStep (w.nodes a) s')
      → IsQuiet st
      → IsSafe members (record w { nodes = set w.nodes a s' })
  other-IsSafe a {s'} st q = record {
    fits =
        set-each (λ b s. Fits members w.votes w.counted b s) w.nodes a s'
          (Fits-Holds (w.nodes a) s' (candidate_real a)
            (NodeStep-Holds (w.nodes a) s' st (IsQuiet-Unwrapped (w.nodes a) s' st q))
            (quiet_led a st q) (k.fits a))
          (λ b apart. k.fits b);
    real = k.real;
    non_empty = k.non_empty;
    once = k.once;
    tallied = k.tallied;
  }

  -- What a voter gave before in the term of a request that it grants now.
  module _ (v : String) (args : RequestVoteArgs) (now : ℕ) {s' : RaftNode}
      {reply : RequestVoteReply} (pre : args.is_pre_vote ≡ false)
      (h : handle_request_vote (w.nodes v) args now ≡ some (s', reply))
      (g : reply.vote_granted ≡ true) where
    earlier_vote : (c : String) → Gave w.votes v c args.term → c ≡ args.candidate_id
    earlier_vote c b =
        let new = handle_request_vote-Voted (w.nodes v) args now pre h g in
        let (low, same) = (k.fits v).held c args.term b in
        let e : (w.nodes v).current_term ≡ args.term = omega (arith, new.not_later) in
        elim (new.free e) [
          | inl free ↦ absurd (candidate_real v c args.term b (sym (same e) ∙ free))
          | inr this ↦ sym (same e) ∙ this
        ]

    pub vote-IsSafe :
        has v members ≡ true
        → has args.candidate_id members ≡ true
        → IsSafe members (record w {
          nodes = set w.nodes v s';
          votes = record { voter = v; candidate = args.candidate_id; term = args.term } ∷ w.votes;
        })
    vote-IsSafe m named =
        let b : Vote = record { voter = v; candidate = args.candidate_id; term = args.term } in
        let new = handle_request_vote-Voted (w.nodes v) args now pre h g in
        let st = request_vote args now reply h in
        record {
          fits =
              set-each (λ a s. Fits members (b ∷ w.votes) w.counted a s) w.nodes v s'
                (Fits-vote s' b (λ e. (omega (arith, new.in_term), new.for_candidate))
                  (Fits-Holds (w.nodes v) s' (candidate_real v)
                    (NodeStep-Holds (w.nodes v) s' st tt) (quiet_led v st tt) (k.fits v)))
                (λ a apart. Fits-vote_elsewhere (w.nodes a) b apart (k.fits a));
          real = λ a c t e. elim e [
            | inl (x, y, z) ↦
                (subst (λ a. has a members ≡ true) x m, subst (λ a. has a members ≡ true) y named)
            | inr old ↦ k.real a c t old
          ];
          non_empty = k.non_empty;
          once = λ a c d t e f. elim e [
            | inl (x, y, z) ↦ elim f [
              | inl (x₁, y₁, z₁) ↦ sym y ∙ y₁
              | inr old ↦
                  sym y
                  ∙ sym (
                      earlier_vote d (
                        subst (λ u. Gave w.votes v d u) (sym z)
                          (subst (λ a. Gave w.votes a d t) (sym x) old)))
            ]
            | inr old ↦ elim f [
              | inl (x, y, z) ↦
                  earlier_vote c (
                    subst (λ u. Gave w.votes v c u) (sym z)
                      (subst (λ a. Gave w.votes a c t) (sym x) old))
                  ∙ y
              | inr old₁ ↦ k.once a c d t old old₁
            ]
          ];
          tallied = λ c t. Tally-vote w.votes b c t (w.counted c t) (w.waiting c t) (k.tallied c t);
        }
