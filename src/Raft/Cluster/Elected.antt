-- ===== src/Raft/Cluster/Elected.antt =====
-- At most one node of a cluster leads in a term (raft/consensus.go, `startElection`,
-- `HandleRequestVote`).
use Prim.Native.String.{String}
use mathlib.Core.Path.{subst}
use aegis_log.Common.{ℕ, ◌*◌, ◌<◌, ◌≡◌, sym, arith, List, length}
use aegis_log.Raft.Types.{leader}
use aegis_log.Raft.Cluster.{
  Cluster, Gave, Move, Run, IsMoveUnwrapped, IsRunUnwrapped, IsStart, here, next, vote, campaign,
  count, other,
}
use aegis_log.Raft.Cluster.Majority.{shared}
use aegis_log.Raft.Cluster.Counted.{All-map, All-has}
use aegis_log.Raft.Cluster.Voting.{other-IsSafe, vote-IsSafe}
use aegis_log.Raft.Cluster.Campaign.{campaign-IsSafe}
use aegis_log.Raft.Cluster.Counting.{count-IsSafe}
use aegis_log.Raft.Cluster.Safe.{IsSafe}

Move-IsSafe :
    (members : List String) (w w' : Cluster)
    → (m : Move members w w') → IsMoveUnwrapped members m
    → IsSafe members w
    → IsSafe members w'
Move-IsSafe members w w' (vote v args now m c p h g) u k =
    vote-IsSafe members w k v args now p h g m c
Move-IsSafe members w w' (campaign c now m h) u k = campaign-IsSafe members w k c now u h m
Move-IsSafe members w w' (count c v t reply now b asked g h) u k =
    count-IsSafe members w k c v t reply now b asked h
Move-IsSafe members w w' (other a st q) u k = other-IsSafe members w k a st q

IsStart-IsSafe : (members : List String) (w : Cluster) → IsStart members w → IsSafe members w
IsStart-IsSafe members w k = record {
  fits = λ a. record {
    named = k.named a;
    sized = k.sized a;
    different = k.different a;
    held = λ c t g. absurd (none a c t g);
    led = λ l. absurd (k.no_leader a l);
  };
  real = λ v c t g. absurd (none v c t g);
  non_empty = k.non_empty;
  once = λ v c d t g f. absurd (none v c t g);
  tallied = λ c t.
      rw (k.none_counted c t, k.none_waiting c t)
        (record { once_each = tt; given = tt; asked_once = tt; not_yet = tt });
}
  where
    none : (v c : String) (t : ℕ) → Gave w.votes v c t → ⊥
    none v c t = subst (λ bs. Gave bs v c t → ⊥) (sym k.no_votes) (λ g. g)

Run-IsSafe :
    (members : List String) (w x : Cluster) (run : Run members w x)
    → IsRunUnwrapped members run
    → IsSafe members w
    → IsSafe members x
Run-IsSafe members w x here u k = k
Run-IsSafe members w x (next {u = y} r m) (u, v) k =
    Move-IsSafe members y x m v (Run-IsSafe members w y r u k)

-- In a cluster that starts without votes and leaders, in which no name is empty and the peers of each member are different from it and from each other and as many as there are other members, no two nodes lead in the same term, in whatever order the nodes take their steps and replies come in, late or never, as long as requests come from members, a node's name is the address by which its peers know it, no node is restarted and no election starts at the last term of 64 bits.
pub one_leader :
    (members : List String) (w x : Cluster) (a b : String)
    → IsStart members w
    → (run : Run members w x) → IsRunUnwrapped members run
    → (x.nodes a).role ≡ leader
    → (x.nodes b).role ≡ leader
    → (x.nodes a).current_term ≡ (x.nodes b).current_term
    → a ≡ b
one_leader members w x a b start run unwrapped la lb same =
    let k = Run-IsSafe members w x run unwrapped (IsStart-IsSafe members w start) in
    let t = (x.nodes a).current_term in
    let lead_b =
      subst (λ u. length members < 2 * length (x.counted b u)) (sym same) ((k.fits b).led lb) in
    let of_a = k.tallied a t in
    let of_b = k.tallied b t in
    let (v, in_a, in_b) =
      shared (x.counted a t) (x.counted b t) members of_a.once_each of_b.once_each
        (All-map (x.counted a t) (λ v g. (k.real v a t g).0) of_a.given)
        (All-map (x.counted b t) (λ v g. (k.real v b t g).0) of_b.given)
        (omega (arith, (k.fits a).led la, lead_b)) in
    k.once v a b t (All-has (λ v. Gave x.votes v a t) v (x.counted a t) of_a.given in_a)
      (All-has (λ v. Gave x.votes v b t) v (x.counted b t) of_b.given in_b)
