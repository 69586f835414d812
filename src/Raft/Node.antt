-- ===== src/Raft/Node.antt =====
-- raft/consensus.go: the log of a node and the steps that the handlers share.
use Prim.Native.String.{String}
use text.Mathlib.Text.{◌==◌ as str_eq}
use aegis_log.Common.{
  ℕ, zero, suc, ◌+◌, ◌-◌, ◌/◌, ◌^◌, ltb, leb, ◌==◌, if◌then◌else◌, false, Option, none, some, List,
  [], ◌∷◌, length, get_elem?, drop, u64,
}
use aegis_log.Common.Faults.{◌>>=◌, map_each}
use aegis_log.Raft.Types.{
  follower, leader, LogEntry, RaftNode, Config, Outgoing, append_entries, install_snapshot,
}

-- A write to a Go map.
abbrev pub update : (String → ℕ) → String → ℕ → String → ℕ
update m k v j = if str_eq j k then v else m j

-- `log[len(log)-1]`: the index of an empty log is out of range.
unfoldable pub last_entry : RaftNode → Option LogEntry
last_entry s = get_elem? s.log (length s.log - 1)

unfoldable pub last_log_index : RaftNode → Option ℕ
unfolding last_entry
last_log_index s = do e ← last_entry s; some e.index

unfoldable pub last_log_term : RaftNode → Option ℕ
unfolding last_entry
last_log_term s = do e ← last_entry s; some e.term

unfoldable pub term_of : Option LogEntry → Option ℕ
term_of none = none
term_of (some e) = some e.term

-- From 2 ^ 63 on `int(index - lastIncludedIndex)` is negative, and the access panics.
unfoldable pub get_log_term : RaftNode → ℕ → Option ℕ
unfolding term_of
get_log_term s index =
    let at = index - s.last_included_index in
    if ltb index s.last_included_index
    then some 0
    else if index == s.last_included_index
    then some s.last_included_term
    else if leb (2 ^ 63) at
    then none
    else if ltb at (length s.log)
    then term_of (get_elem? s.log at)
    else some 0

unfoldable pub get_log_slice : RaftNode → ℕ → Option (List LogEntry)
get_log_slice s start =
    let at = start - s.last_included_index in
    if leb start s.last_included_index
    then some []
    else if leb (2 ^ 63) at
    then none
    else if leb (length s.log) at
    then some []
    else some (drop at s.log)

-- `(totalNodes / 2) + 1`
unfoldable pub quorum : RaftNode → ℕ
quorum s = (length s.peers + 1) / 2 + 1

-- `time.Now()` is the argument `now`.
unfoldable pub step_down : RaftNode → ℕ → ℕ → RaftNode
step_down s new_term now = record s {
  role = follower;
  current_term = new_term;
  voted_for = "";
  leader_id = "";
  election_reset_event = now;
}

-- The send that does not wait for room in `commitNotifyCh`.
unfoldable pub notify : RaftNode → RaftNode
notify s = record s { commit_notify = if ltb s.commit_notify 100 then s.commit_notify + 1 else 100 }

-- One round of the loop of `broadcastAppendEntries`: the message for one peer.
unfoldable pub message_for : RaftNode → String → Option Outgoing
message_for s peer =
    let stored = s.next_index peer in
    let next = if stored == 0 then 1 else stored in
    if leb next s.last_included_index
    then some (
        install_snapshot peer (record {
          term = s.current_term;
          leader_id = s.id;
          last_included_index = s.last_included_index;
          last_included_term = s.last_included_term;
          state = s.last_snapshot_data;
        }))
    else (get_log_term s (next - 1) >>= λ prev_term. get_log_slice s next >>= λ entries. some (
        append_entries peer (record {
          term = s.current_term;
          leader_id = s.id;
          prev_log_index = next - 1;
          prev_log_term = prev_term;
          entries = entries;
          leader_commit = s.commit_index;
        })))

unfoldable pub broadcast_append_entries : RaftNode → Option (List Outgoing)
unfolding message_for map_each
broadcast_append_entries s = map_each (message_for s) s.peers

-- `for _, peer := range rn.peers` in `becomeLeader`.
unfoldable pub reset_peers : List String → ℕ → RaftNode → RaftNode
reset_peers [] last s = s
reset_peers (p ∷ ps) last s = reset_peers ps last (record s {
  next_index = update s.next_index p (u64 (last + 1));
  match_index = update s.match_index p 0;
})

unfoldable pub become_leader : RaftNode → Option (RaftNode × List Outgoing)
unfolding reset_peers
become_leader s = do
  last ← last_log_index s
  let s' = reset_peers s.peers last (record s { role = leader; leader_id = s.id })
  messages ← broadcast_append_entries s'
  some (s', messages)

-- How many of the peers have stored the entry at `n`.
unfoldable pub stored_by : RaftNode → ℕ → List String → ℕ
stored_by s n [] = 0
stored_by s n (p ∷ ps) = (if leb n (s.match_index p) then 1 else 0) + stored_by s n ps

-- `for n := lastIdx; n > rn.commitIndex; n--`: the first `n` that is committed, if any.
unfoldable pub find_commit : RaftNode → ℕ → Option (Option ℕ)
find_commit s zero = some none
find_commit s (suc m) =
    let rest = find_commit s m in
    if ltb s.commit_index (suc m)
    then (get_log_term s (suc m) >>= λ t.
        if t == s.current_term
        then (if leb (quorum s) (1 + stored_by s (suc m) s.peers)
            then some (some (suc m))
            else rest)
        else rest)
    else some none

unfoldable pub set_commit : RaftNode → Option ℕ → Option (RaftNode × List Outgoing)
unfolding notify
set_commit s none = some (s, [])
set_commit s (some n) = do
  let s' = notify (record s { commit_index = n })
  messages ← broadcast_append_entries s'
  some (s', messages)

unfoldable pub check_and_update_commit_index : RaftNode → Option (RaftNode × List Outgoing)
unfolding set_commit
check_and_update_commit_index s = do
  last ← last_log_index s
  found ← find_commit s last
  set_commit s found

-- `NewRaftNode`: an anchor at index 0, and an entry with no data for each index up to `InitialCommitIndex`.
unfoldable pub initial_entries : ℕ → ℕ → List LogEntry
initial_entries i zero = []
initial_entries i (suc n) =
    record { index = i; term = 0; payload = none } ∷ initial_entries (i + 1) n

abbrev default_to : ℕ → ℕ → ℕ
default_to d n = if n == 0 then d else n

unfoldable pub new_raft_node : Config → ℕ → RaftNode
unfolding initial_entries
new_raft_node c now = record {
  id = c.id;
  peers = c.peers;
  cfg = record c {
    election_min_ms = default_to 150 c.election_min_ms;
    election_max_ms = default_to 300 c.election_max_ms;
    heartbeat_interval = default_to 50 c.heartbeat_interval;
  };
  current_term = 0;
  voted_for = "";
  log = initial_entries 0 (suc c.initial_commit_index);
  commit_index = c.initial_commit_index;
  last_applied = c.initial_commit_index;
  role = follower;
  leader_id = "";
  last_included_index = 0;
  last_included_term = 0;
  last_snapshot_data = [];
  next_index = λ p. 0;
  match_index = λ p. 0;
  election_reset_event = now;
  commit_notify = 0;
  is_stopped = false;
}
