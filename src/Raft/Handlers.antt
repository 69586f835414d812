-- ===== src/Raft/Handlers.antt =====
-- raft/consensus.go: the handlers of the three requests, and `TakeSnapshot`.
use Prim.Native.String.{String}
use text.Mathlib.Text.{◌==◌ as str_eq}
use aegis_log.Common.{
  ℕ, ◌+◌, ◌-◌, ltb, leb, ◌==◌, if◌then◌else◌, Bool, true, false, not, ◌&&◌, ◌||◌, Option, none,
  some, List, [], ◌∷◌, ◌++◌, length, take, drop, u64, sub64, min, Result, ok, err,
}
use aegis_log.Common.Faults.{◌>>=◌}
use aegis_log.Raft.Types.{
  follower, RaftError, above_commit, already_included, beyond_log, LogEntry, RequestVoteArgs,
  RequestVoteReply, AppendEntriesArgs, AppendEntriesReply, InstallSnapshotArgs,
  InstallSnapshotReply, RaftNode,
}
use aegis_log.Raft.Node.{last_log_index, last_log_term, get_log_term, step_down, notify}

-- The candidate's log is at least as up to date as the one that ends in `(last_term, last_index)`.
abbrev pub log_ok : RequestVoteArgs → ℕ → ℕ → Bool
log_ok args last_index last_term =
    ltb last_term args.last_log_term
    || (args.last_log_term == last_term && leb last_index args.last_log_index)

-- A leader was heard from within the minimum election timeout.
abbrev pub heard_recently : RaftNode → ℕ → Bool
heard_recently s now =
    not (str_eq s.leader_id "") && ltb (now - s.election_reset_event) s.cfg.election_min_ms

abbrev pub refuse_vote : RaftNode → RaftNode × RequestVoteReply
refuse_vote s = (s, record { term = s.current_term; vote_granted = false })

-- The part of `HandleRequestVote` behind the two early returns.
decide_vote : RaftNode → RequestVoteArgs → ℕ → Option (RaftNode × RequestVoteReply)
decide_vote s args now = do
  last_index ← last_log_index s
  last_term ← last_log_term s
  let can_vote = args.is_pre_vote || (str_eq s.voted_for "" || str_eq s.voted_for args.candidate_id)
  let granted : RequestVoteReply = record { term = s.current_term; vote_granted = true }
  some (
      if can_vote && log_ok args last_index last_term
      then (if args.is_pre_vote
          then (s, granted)
          else (record s { voted_for = args.candidate_id; election_reset_event = now }, granted))
      else refuse_vote s)

-- `HandleRequestVote` behind the step down.
unfoldable pub answer_vote : RaftNode → RequestVoteArgs → ℕ → Option (RaftNode × RequestVoteReply)
unfolding decide_vote
answer_vote s args now =
    if ltb args.term s.current_term
    then some (refuse_vote s)
    else if args.is_pre_vote && heard_recently s now
    then some (refuse_vote s)
    else decide_vote s args now

unfoldable pub handle_request_vote :
    RaftNode → RequestVoteArgs → ℕ → Option (RaftNode × RequestVoteReply)
unfolding step_down
handle_request_vote s args now =
    answer_vote
      (if not args.is_pre_vote && ltb s.current_term args.term
        then step_down s args.term now
        else s)
      args now

-- `rn.log = append(rn.log[:sliceIdx], entry)`. Go faults above the capacity of the slice; the model
-- has no capacity and faults above the length, which no caller on a well-formed node reaches.
unfoldable pub cut_and_append : RaftNode → ℕ → LogEntry → Option RaftNode
cut_and_append s idx entry =
    let at = sub64 idx s.last_included_index in
    if leb at (length s.log) then some (record s { log = take at s.log ++ (entry ∷ []) }) else none

-- One round of the loop over `args.Entries`.
unfoldable pub put_entry : RaftNode → ℕ → LogEntry → Option RaftNode
unfolding cut_and_append
put_entry s idx entry = do
  last ← last_log_index s
  if leb idx last
      then (get_log_term s idx >>= λ t.
          if t == entry.term then some s else cut_and_append s idx entry)
      else some (record s { log = s.log ++ (entry ∷ []) })

-- `idx` is `args.PrevLogIndex + 1 + uint64(i)`.
unfoldable pub put_entries : RaftNode → ℕ → List LogEntry → Option RaftNode
unfolding put_entry
put_entries s idx [] = some s
put_entries s idx (e ∷ es) = do s' ← put_entry s idx e; put_entries s' (u64 (idx + 1)) es

unfoldable pub advance_commit : RaftNode → ℕ → ℕ → RaftNode
unfolding notify
advance_commit s leader_commit last_new =
    if ltb s.commit_index leader_commit
    then notify (record s { commit_index = min leader_commit last_new })
    else s

abbrev pub append_reply : RaftNode → Bool → ℕ → RaftNode × AppendEntriesReply
append_reply s done at = (s, record { term = s.current_term; success = done; match_index = at })

-- From the consistency check at `PrevLogIndex` on.
unfoldable pub store_entries :
    RaftNode → ℕ → ℕ → List LogEntry → ℕ → Option (RaftNode × AppendEntriesReply)
unfolding put_entries advance_commit
store_entries s prev prev_term entries leader_commit = last_log_index s >>= λ last.
    if ltb last prev
    then some (append_reply s false 0)
    else (get_log_term s prev >>= λ t.
        if t == prev_term
        then (put_entries s (u64 (prev + 1)) entries >>= λ s'.
            let last_new = u64 (prev + length entries) in
            some (append_reply (advance_commit s' leader_commit last_new) true last_new))
        else some (append_reply s false 0))

-- What a request of the current term does before the log is looked at.
abbrev pub follow : RaftNode → String → ℕ → RaftNode
follow s leader_id now = record s {
  role = follower;
  leader_id = leader_id;
  election_reset_event = now;
}

-- `HandleAppendEntries` for a node that follows the sender.
unfoldable pub accept_entries :
    RaftNode → AppendEntriesArgs → Option (RaftNode × AppendEntriesReply)
accept_entries s args =
    let offset = s.last_included_index - args.prev_log_index in
    if ltb args.prev_log_index s.last_included_index
    then (if leb (length args.entries) offset
        then some (append_reply s true s.last_included_index)
        else store_entries s s.last_included_index s.last_included_term (drop offset args.entries)
            args.leader_commit)
    else store_entries s args.prev_log_index args.prev_log_term args.entries args.leader_commit

unfoldable pub handle_append_entries :
    RaftNode → AppendEntriesArgs → ℕ → Option (RaftNode × AppendEntriesReply)
unfolding step_down
handle_append_entries s₀ args now =
    let s = if ltb s₀.current_term args.term then step_down s₀ args.term now else s₀ in
    if ltb args.term s.current_term
    then some (append_reply s false 0)
    else accept_entries (follow s args.leader_id now) args

abbrev pub anchor : ℕ → ℕ → LogEntry
anchor index term = record { index = index; term = term; payload = none }

-- The entries behind `index`, under a new anchor.
abbrev pub compacted : RaftNode → ℕ → ℕ → List LogEntry
compacted s index term =
    let at = index - s.last_included_index in
    anchor index term ∷ (if ltb (at + 1) (length s.log) then drop (at + 1) s.log else [])

unfoldable pub raise_to : ℕ → ℕ → ℕ
raise_to n low = if ltb n low then low else n

-- `log` is what the snapshot leaves of the log.
unfoldable pub install : RaftNode → InstallSnapshotArgs → List LogEntry → RaftNode
unfolding raise_to
install s args log = record s {
  log = log;
  last_included_index = args.last_included_index;
  last_included_term = args.last_included_term;
  last_snapshot_data = args.state;
  commit_index = raise_to s.commit_index args.last_included_index;
  last_applied = raise_to s.last_applied args.last_included_index;
}

unfoldable pub snapshot_log : RaftNode → InstallSnapshotArgs → Option (List LogEntry)
snapshot_log s args = last_log_index s >>= λ last.
    if leb args.last_included_index last
    then (get_log_term s args.last_included_index >>= λ t. some (
        if t == args.last_included_term
        then compacted s args.last_included_index args.last_included_term
        else anchor args.last_included_index args.last_included_term ∷ []))
    else some (anchor args.last_included_index args.last_included_term ∷ [])

-- The callback that restores the state machine is started, with its three arguments.
pub record Restore : Type 0 where
  pub index : ℕ
  pub term : ℕ
  pub state : List ℕ

abbrev pub restore_of : RaftNode → InstallSnapshotArgs → Option Restore
restore_of s args =
    if s.cfg.on_restore_snapshot && ltb 0 (length args.state)
    then some (record {
      index = args.last_included_index;
      term = args.last_included_term;
      state = args.state;
    })
    else none

-- The reply carries the term that the node had before the request.
unfoldable pub handle_install_snapshot :
    RaftNode → InstallSnapshotArgs → ℕ → Option (RaftNode × InstallSnapshotReply × Option Restore)
unfolding step_down install snapshot_log
handle_install_snapshot s₀ args now =
    let reply : InstallSnapshotReply = record { term = s₀.current_term } in
    let s₁ = if ltb s₀.current_term args.term then step_down s₀ args.term now else s₀ in
    let s = follow s₁ args.leader_id now in
    if ltb args.term s₀.current_term
    then some (s₀, reply, none)
    else if leb args.last_included_index s.last_included_index
    then some (s, reply, none)
    else (snapshot_log s args >>= λ log. some (install s args log, reply, restore_of s args))

-- The new state, or the error and the state as it was.
unfoldable pub take_snapshot : RaftNode → ℕ → List ℕ → Option (Result RaftError RaftNode)
unfolding raise_to
take_snapshot s index state =
    if ltb s.commit_index index
    then some (err (above_commit index s.commit_index))
    else if leb index s.last_included_index
    then some (err (already_included index s.last_included_index))
    else (get_log_term s index >>= λ term. some (
        if leb (length s.log) (index - s.last_included_index)
        then err (beyond_log index s.commit_index)
        else ok (record s {
          log = compacted s index term;
          last_included_index = index;
          last_included_term = term;
          last_snapshot_data = state;
          last_applied = raise_to s.last_applied index;
        })))
