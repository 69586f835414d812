-- ===== src/Raft/Cluster/Outcomes.antt =====
-- What an election's start and its replies leave of a node (raft/consensus.go, `startElection`).
use aegis_log.Common.{ℕ, ◌+◌, ◌*◌, ◌^◌, ◌<◌, ◌≡◌, arith, List, length, ◌⊎◌, some}
use aegis_log.Raft.Types.{RaftNode, RequestVoteReply, Outgoing, leader}
use aegis_log.Raft.Node.{step_down, quorum}
use aegis_log.Raft.Election.{campaign as as_candidate, start_election, on_vote_reply}
use aegis_log.Raft.Ballot.Steps.{become_leader-SameBallot}

-- What starting an election leaves.
pub record IsCampaign (s s' : RaftNode) : Type 0 where
  pub next_term : s'.current_term ≡ s.current_term + 1
  pub own_vote : s'.voted_for ≡ s.id
  pub alone : s'.role ≡ leader → length s.peers + 1 < 2

pub start_election-IsCampaign :
    (s : RaftNode) (now : ℕ) {s' : RaftNode} {messages : List Outgoing}
    → s.current_term + 1 < 2 ^ 64
    → start_election s now ≡ some (s', messages)
    → IsCampaign s s'
unfolding start_election quorum
start_election-IsCampaign s now {s'} {messages} r h =
    ground (arith, become_leader-SameBallot (as_candidate s now) {s' = s'} {messages = messages})

-- How a node leads behind a counted vote.
abbrev pub IsCounted : RaftNode → RaftNode → ℕ → ℕ → ℕ → Type 0
IsCounted s s' t votes votes' =
    (s'.current_term ≡ s.current_term)
    × ((s.role ≡ leader)
        ⊎ ((s.current_term ≡ t) × (votes' ≡ votes + 1) × (length s.peers + 1 < 2 * votes')))

pub on_vote_reply-IsCounted :
    (s : RaftNode) (t votes : ℕ) (reply : RequestVoteReply) (now : ℕ) {s' : RaftNode}
    {messages : List Outgoing} {votes' : ℕ}
    → on_vote_reply s t votes reply now ≡ some ((s', messages), votes')
    → s'.role ≡ leader
    → IsCounted s s' t votes votes'
unfolding on_vote_reply step_down quorum
on_vote_reply-IsCounted s t votes reply now {s'} {messages} h l =
    ground (arith, become_leader-SameBallot s {s' = s'} {messages = messages})
