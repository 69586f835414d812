-- ===== src/Raft/Election.antt =====
-- raft/consensus.go: pre-votes, elections, replies to the leader, proposals, and the applier. Where
-- the code unlocks the node to wait for replies, the part before and the part for each reply are
-- functions of their own, and the replies come in any order.
use Prim.Native.String.{String}
use aegis_log.Common.{
  ℕ, zero, suc, ◌+◌, ◌-◌, ◌^◌, ltb, leb, ◌==◌, if◌then◌else◌, Bool, true, false, not, ◌&&◌, ◌||◌,
  Option, none, some, List, [], ◌∷◌, ◌++◌, map, length, get_elem?, u64, Result, ok, err,
}
use aegis_log.Common.Faults.{◌>>=◌}
use aegis_log.Raft.Types.{
  candidate, is_leader, is_candidate, RaftError, not_leader, proposal_failed, node_stopped,
  proposal_timeout, LogEntry, RequestVoteReply, AppendEntriesReply, InstallSnapshotReply, RaftNode,
  Outgoing, request_vote,
}
use aegis_log.Raft.Node.{
  last_log_index, last_log_term, quorum, step_down, update, become_leader, broadcast_append_entries,
  check_and_update_commit_index,
}

-- The state after a step, and the messages that it starts to send.
abbrev pub Step : Type 0
Step = RaftNode × List Outgoing

abbrev ballot : RaftNode → ℕ → ℕ → ℕ → Bool → String → Outgoing
ballot s term last_index last_term pre target = request_vote target (record {
  term = term;
  candidate_id = s.id;
  last_log_index = last_index;
  last_log_term = last_term;
  is_pre_vote = pre;
})

-- `runPreVote` up to the wait: the ballots, or `none` where one vote is a quorum.
unfoldable pub start_pre_vote : RaftNode → Option (Option (List Outgoing))
start_pre_vote s = do
  last_index ← last_log_index s
  last_term ← last_log_term s
  some (
      if leb (quorum s) 1
      then none
      else some (map (ballot s (u64 (s.current_term + 1)) last_index last_term true) s.peers))

-- One reply to a pre-vote: the node, and the count of the votes.
unfoldable pub on_pre_vote_reply : RaftNode → ℕ → RequestVoteReply → ℕ → RaftNode × ℕ
on_pre_vote_reply s votes reply now = (
  if ltb s.current_term reply.term then step_down s reply.term now else s,
  if reply.vote_granted then votes + 1 else votes,
)

-- What `runPreVote` returns after the wait.
unfoldable pub pre_vote_won : RaftNode → ℕ → Bool
pre_vote_won s votes = if s.is_stopped || is_leader s.role then false else leb (quorum s) votes

abbrev pub campaign : RaftNode → ℕ → RaftNode
campaign s now = record s {
  role = candidate;
  current_term = u64 (s.current_term + 1);
  voted_for = s.id;
  leader_id = "";
  election_reset_event = now;
}

unfoldable pub start_election : RaftNode → ℕ → Option Step
start_election s₀ now = do
  let s = campaign s₀ now
  last_index ← last_log_index s
  last_term ← last_log_term s
  if leb (quorum s) 1
      then become_leader s
      else some (s, map (ballot s s.current_term last_index last_term false) s.peers)

-- One reply to the ballots of `term`, with the votes counted before it.
unfoldable pub on_vote_reply : RaftNode → ℕ → ℕ → RequestVoteReply → ℕ → Option (Step × ℕ)
on_vote_reply s term votes reply now =
    if ltb s.current_term reply.term
    then some ((step_down s reply.term now, []), votes)
    else if is_candidate s.role && (s.current_term == term && reply.vote_granted)
    then (if leb (quorum s) (votes + 1)
        then (become_leader s >>= λ won. some (won, votes + 1))
        else some ((s, []), votes + 1))
    else some ((s, []), votes)

-- One tick of `runLeaderHeartbeat`; `none` inside ends the loop.
unfoldable pub leader_heartbeat : RaftNode → Option (Option (List Outgoing))
leader_heartbeat s =
    if not (is_leader s.role) || s.is_stopped
    then some none
    else (broadcast_append_entries s >>= λ messages. some (some messages))

-- The goroutine of `broadcastAppendEntries` when `SendAppendEntries` to `target` returned.
unfoldable pub on_append_reply : RaftNode → String → ℕ → AppendEntriesReply → ℕ → Option Step
on_append_reply s target term reply now =
    if ltb s.current_term reply.term
    then some (step_down s reply.term now, [])
    else if not (is_leader s.role) || not (s.current_term == term)
    then some (s, [])
    else if reply.success
    then check_and_update_commit_index (record s {
      next_index = update s.next_index target (u64 (reply.match_index + 1));
      match_index = update s.match_index target reply.match_index;
    })
    else if ltb (u64 (s.last_included_index + 1)) (s.next_index target)
    then some (record s { next_index = update s.next_index target (s.next_index target - 1) }, [])
    else some (record s { next_index = update s.next_index target s.last_included_index }, [])

-- The same for `SendInstallSnapshot` of a snapshot up to `sent`.
unfoldable pub on_snapshot_reply : RaftNode → String → ℕ → ℕ → InstallSnapshotReply → ℕ → RaftNode
on_snapshot_reply s target term sent reply now =
    if ltb s.current_term reply.term
    then step_down s reply.term now
    else if not (is_leader s.role) || not (s.current_term == term)
    then s
    else if leb (s.next_index target) sent
    then record s {
      next_index = update s.next_index target (u64 (sent + 1));
      match_index = update s.match_index target sent;
    }
    else s

-- What `Propose` waits for.
pub record Proposal : Type 0 where
  pub index : ℕ
  pub term : ℕ

-- `Propose` up to the wait.
unfoldable pub propose : RaftNode → Option (List ℕ) → Option (Result RaftError (Step × Proposal))
propose s payload =
    if not (is_leader s.role)
    then some (err not_leader)
    else (last_log_index s >>= λ last.
        let index = u64 (last + 1) in
        let entry : LogEntry = record { index = index; term = s.current_term; payload = payload } in
        let s' = record s { log = s.log ++ (entry ∷ []) } in
        broadcast_append_entries s' >>= λ messages.
        some (ok ((s', messages), record { index = index; term = s.current_term })))

-- What one `select` of the wait sees: the stop channel, the timer, or the node after 5 ms.
pub data Wake : Type 0 where
  stopped timed_out : Wake
  poll : RaftNode → Wake

-- `none` when the wait goes on after these events.
unfoldable pub await : Proposal → List Wake → Option (Result RaftError ℕ)
await p [] = none
await p (stopped ∷ ws) = some (err node_stopped)
await p (timed_out ∷ ws) = some (err proposal_timeout)
await p (poll s ∷ ws) =
    let rest = await p ws in
    if not (is_leader s.role && s.current_term == p.term)
    then some (err proposal_failed)
    else if leb p.index s.commit_index
    then some (ok p.index)
    else rest

-- The entry that one round of the applier hands to `OnCommit`, if any.
unfoldable pub handed_over : RaftNode → Option LogEntry → Option (List LogEntry)
handed_over s none = none
handed_over s (some e) =
    some (elim e.payload [ none ↦ [] | some _ ↦ if s.cfg.on_commit then e ∷ [] else [] ])

-- One round, for the new value of `lastApplied`. As in `get_log_term`, a negative index panics.
unfoldable pub apply_one : RaftNode → ℕ → Option (List LogEntry)
unfolding handed_over
apply_one s applied =
    let at = applied - s.last_included_index in
    if leb applied s.last_included_index
    then some []
    else if leb (2 ^ 63) at
    then none
    else if ltb at (length s.log)
    then handed_over s (get_elem? s.log at)
    else some []

-- The loop of `runApplierLoop` on fuel: the new state, and what `OnCommit` was called with.
unfoldable pub apply_loop : ℕ → RaftNode → List LogEntry → Option (RaftNode × List LogEntry)
apply_loop zero s out = some (s, out)
apply_loop (suc fuel) s out =
    let applied = u64 (s.last_applied + 1) in
    elim (ltb s.last_applied s.commit_index) [
      | true ↦ apply_one s applied >>= λ handed.
          apply_loop fuel (record s { last_applied = applied }) (out ++ handed)
      | false ↦ some (s, out)
    ]

-- Each round moves `lastApplied` up by one, so the distance is the number of rounds.
unfoldable pub apply_committed : RaftNode → Option (RaftNode × List LogEntry)
apply_committed s = apply_loop (s.commit_index - s.last_applied) s []
