-- ===== src/Raft/Cluster.antt =====
-- A cluster of nodes of raft/consensus.go and the votes between them. Messages may be lost, late or
-- out of order; a node that runs is not restarted, since it keeps its term and its vote in memory. The
-- name of a node is also what its peers know it by, where the code has an address.
mod Majority
mod Quiet
mod Counted
mod Safe
mod Outcomes
mod Voting
mod Campaign
mod Counting
pub mod Elected
mod Tests
use Prim.Native.String.{String}
use text.Mathlib.Text.{◌==◌ as str_eq}
use aegis_log.Common.{
  ℕ, ◌+◌, ◌*◌, ◌^◌, ◌≤◌, ◌<◌, ◌≡◌, ◌≢◌, true, false, List, [], ◌∷◌, length, if◌then◌else◌, ◌==◌,
  ◌&&◌, Bool, ◌⊎◌, some, u64,
}
use aegis_log.Common.Maps.{set}
use aegis_log.Raft.Types.{RaftNode, RequestVoteArgs, RequestVoteReply, Outgoing, leader}
use aegis_log.Raft.Handlers.{handle_request_vote}
use aegis_log.Raft.Election.{start_election, on_vote_reply}
use aegis_log.Raft.Ballot.{NodeStep, pre_vote_reply, election, vote_reply}
use aegis_log.Raft.Cluster.Majority.{has, without, IsDistinct}

-- A vote that a node gave, to a request or to itself.
pub record Vote : Type 0 where
  pub voter : String
  pub candidate : String
  pub term : ℕ

-- The nodes by name, the votes given so far, and for each candidate and term of an election whose
-- votes the candidate has counted and which entries of its peers it waits for: `votesReceived` of
-- `startElection` is the length of the first list, and each entry of the second is a goroutine.
pub record Cluster : Type 0 where
  pub nodes : String → RaftNode
  pub votes : List Vote
  pub counted : String → ℕ → List String
  pub waiting : String → ℕ → List String

abbrev pub Gave : List Vote → String → String → ℕ → Type 0
Gave [] v c t = ⊥
Gave (b ∷ bs) v c t = ((b.voter ≡ v) × (b.candidate ≡ c) × (b.term ≡ t)) ⊎ Gave bs v c t

unfoldable pub set_counted :
    (String → ℕ → List String) → String → ℕ → List String → String → ℕ → List String
set_counted f c t vs d u = if str_eq c d && t == u then vs else f d u

-- `currentTerm++`
abbrev pub next_term : RaftNode → ℕ
next_term s = u64 (s.current_term + 1)

-- A step of one node that neither starts an election nor counts a vote.
abbrev pub IsQuiet : {s s' : RaftNode} → NodeStep s s' → Type 0
IsQuiet (election now messages h) = ⊥
IsQuiet (vote_reply term votes reply now messages votes' h) = reply.vote_granted ≡ false
IsQuiet st = Unit {0}

-- The counted votes behind a reply of `v`, where the count went from theirs to `votes`.
abbrev pub add_counted : List String → String → ℕ → List String
add_counted vs v votes = if votes == length vs then vs else v ∷ vs

module _ (members : List String) where
  pub data Move (w : Cluster) : Cluster → Type 0 where
    -- a member grants the request of a member
    vote :
        (v : String) (args : RequestVoteArgs) (now : ℕ) {s' : RaftNode} {reply : RequestVoteReply}
        → has v members ≡ true
        → has args.candidate_id members ≡ true
        → args.is_pre_vote ≡ false
        → handle_request_vote (w.nodes v) args now ≡ some (s', reply)
        → reply.vote_granted ≡ true
        → Move w (record w {
          nodes = set w.nodes v s';
          votes = record { voter = v; candidate = args.candidate_id; term = args.term } ∷ w.votes;
        })
    -- a member votes for itself and asks each entry of its peers
    campaign :
        (c : String) (now : ℕ) {s' : RaftNode} {messages : List Outgoing}
        → has c members ≡ true
        → start_election (w.nodes c) now ≡ some (s', messages)
        → Move w (record {
          nodes = set w.nodes c s';
          votes = record { voter = c; candidate = c; term = next_term (w.nodes c) } ∷ w.votes;
          counted = set_counted w.counted c (next_term (w.nodes c)) (c ∷ []);
          waiting = set_counted w.waiting c (next_term (w.nodes c)) (w.nodes c).peers;
        })
    -- one of the goroutines of an election gets the vote of the node that it asked, and ends
    count :
        (c v : String) (t : ℕ) (reply : RequestVoteReply) (now : ℕ) {s' : RaftNode}
        {messages : List Outgoing} {votes' : ℕ}
        → Gave w.votes v c t
        → has v (w.waiting c t) ≡ true
        → reply.vote_granted ≡ true
        → on_vote_reply (w.nodes c) t (length (w.counted c t)) reply now
          ≡ some ((s', messages), votes')
        → Move w (record {
          nodes = set w.nodes c s';
          votes = w.votes;
          counted = set_counted w.counted c t (add_counted (w.counted c t) v votes');
          waiting = set_counted w.waiting c t (without v (w.waiting c t));
        })
    -- any other step of a node
    other :
        (a : String) {s' : RaftNode} (st : NodeStep (w.nodes a) s')
        → IsQuiet st
        → Move w (record w { nodes = set w.nodes a s' })

  pub data Run (w : Cluster) : Cluster → Type 0 where
    here : Run w w
    next : {u x : Cluster} → Run w u → Move u x → Run w x

  -- No election of the run starts at the last term of 64 bits.
  abbrev pub IsMoveUnwrapped : {w w' : Cluster} → Move w w' → Type 0
  IsMoveUnwrapped {w} (campaign c now m h) = (w.nodes c).current_term + 1 < 2 ^ 64
  IsMoveUnwrapped m = Unit {0}

  abbrev pub IsRunUnwrapped : {w x : Cluster} → Run w x → Type 0
  IsRunUnwrapped here = Unit {0}
  IsRunUnwrapped (next r m) = IsRunUnwrapped r × IsMoveUnwrapped m

  -- Before any vote: each node goes by its own name, no member's name is empty, the peers of a member
  -- are different, without the member itself, and as many as there are other members; no node leads.
  pub record IsStart (w : Cluster) : Type 0 where
    pub no_votes : w.votes ≡ []
    pub none_counted : (c : String) (t : ℕ) → w.counted c t ≡ []
    pub none_waiting : (c : String) (t : ℕ) → w.waiting c t ≡ []
    pub named : (a : String) → (w.nodes a).id ≡ a
    pub non_empty : has "" members ≡ false
    pub sized : (a : String) → has a members ≡ true → length (w.nodes a).peers + 1 ≡ length members
    pub different : (a : String) → has a members ≡ true → IsDistinct (a ∷ (w.nodes a).peers)
    pub no_leader : (a : String) → (w.nodes a).role ≢ leader
