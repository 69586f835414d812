-- ===== src/Raft/Timer.antt =====
-- The election timer of raft/consensus.go, and stopping a node.
use aegis_log.Common.{ℕ, ◌+◌, ◌-◌, ltb, leb, if◌then◌else◌, true, Option, none, some, List}
use aegis_log.Common.Faults.{◌>>=◌}
use aegis_log.Raft.Types.{is_leader, RaftNode, Outgoing}
use aegis_log.Raft.Election.{start_pre_vote, pre_vote_won, start_election, Step}

-- `randomizedTimeout` in milliseconds: `draw n` is below n, and `Intn` panics where it has no room.
unfoldable pub randomized_timeout : (ℕ → ℕ) → RaftNode → Option ℕ
randomized_timeout draw s =
    if ltb s.cfg.election_max_ms s.cfg.election_min_ms
    then none
    else some (s.cfg.election_min_ms + draw (s.cfg.election_max_ms - s.cfg.election_min_ms + 1))

-- What the loop does when its timer fires.
pub data Tick : Type 0 where
  ended waits : Tick
  asks : List Outgoing → Tick
  stands : Step → Tick

-- One round of `runElectionLoop` behind the timer, up to the wait for the pre-votes; a node that is its
-- own quorum stands at once.
unfoldable pub election_tick : RaftNode → ℕ → ℕ → Option Tick
election_tick s timeout now =
    if s.is_stopped
    then some ended
    else if is_leader s.role
    then some waits
    else if leb timeout (now - s.election_reset_event)
    then (start_pre_vote s >>= λ ballots. elim ballots [
      | some messages ↦ some (asks messages)
      | none ↦ start_election s now >>= λ step. some (stands step)
    ])
    else some waits

-- The rest of the round, with the votes that came in.
unfoldable pub after_pre_vote : RaftNode → ℕ → ℕ → Option Tick
after_pre_vote s votes now =
    if pre_vote_won s votes
    then (start_election s now >>= λ step. some (stands step))
    else some waits

-- `Stop`
abbrev pub stop : RaftNode → RaftNode
stop s = record s { is_stopped = true }
