-- ===== src/Raft/Transport.antt =====
-- raft/tcp_transport.go: the dispatch of requests to the node, and a request sent to a peer. JSON and the
-- network are parameters.
pub mod Exchange
mod Tests
use aegis_log.Common.{
  ℕ, ◌==◌, if◌then◌else◌, Option, none, some, List, [], ◌∷◌, ◌++◌, Result, ok, err,
}
use aegis_log.Common.Faults.{◌>>=◌}
use aegis_log.Raft.Types.{
  RaftNode, RequestVoteArgs, RequestVoteReply, AppendEntriesArgs, AppendEntriesReply,
  InstallSnapshotArgs, InstallSnapshotReply,
}
use aegis_log.Raft.Handlers.{handle_request_vote, handle_append_entries, handle_install_snapshot}

abbrev pub rpc_request_vote : ℕ
rpc_request_vote = 0x10

abbrev pub rpc_append_entries : ℕ
rpc_append_entries = 0x20

abbrev pub rpc_install_snapshot : ℕ
rpc_install_snapshot = 0x30

-- `J` are the JSON values.
pub record NetworkRpcMessage (J : Type 0) : Type 0 where
  pub kind : ℕ
  pub body : J

-- The arguments of the three calls.
pub data Request : Type 0 where
  vote_request : RequestVoteArgs → Request
  append_request : AppendEntriesArgs → Request
  snapshot_request : InstallSnapshotArgs → Request

pub data Answer : Type 0 where
  vote_answer : RequestVoteReply → Answer
  append_answer : AppendEntriesReply → Answer
  snapshot_answer : InstallSnapshotReply → Answer

abbrev pub kind_of : Request → ℕ
kind_of (vote_request args) = rpc_request_vote
kind_of (append_request args) = rpc_append_entries
kind_of (snapshot_request args) = rpc_install_snapshot

-- The call of the handler: the node behind it and the reply.
unfoldable pub call_handler : RaftNode → Request → ℕ → Option (RaftNode × Answer)
call_handler s (vote_request args) now =
    handle_request_vote s args now >>= λ (s', r). some (s', vote_answer r)
call_handler s (append_request args) now =
    handle_append_entries s args now >>= λ (s', r). some (s', append_answer r)
call_handler s (snapshot_request args) now =
    handle_install_snapshot s args now >>= λ (s', r, restore). some (s', snapshot_answer r)

-- `encoding/json`, between Go values and JSON values; a connection carries JSON values.
pub record Codec (J : Type 0) : Type 0 where
  pub encode_message : NetworkRpcMessage J → J
  pub decode_message : J → Option (NetworkRpcMessage J)
  pub marshal : Request → J
  pub unmarshal_vote : J → Option RequestVoteArgs
  pub unmarshal_append : J → Option AppendEntriesArgs
  pub unmarshal_snapshot : J → Option InstallSnapshotArgs
  pub encode_answer : Answer → J
  pub decode_vote : J → Option RequestVoteReply
  pub decode_append : J → Option AppendEntriesReply
  pub decode_snapshot : J → Option InstallSnapshotReply

-- What one round of `handleConnection` comes to.
pub data Handled (J : Type 0) : Type 0 where
  closed ignored : Handled J
  replied : RaftNode → J → Handled J

module _ {J : Type 0} (c : Codec J) where
  -- The request in a message, `none` for a body that does not decode, and no request for another kind.
  unfoldable pub request_in : NetworkRpcMessage J → Option (Option Request)
  request_in m =
      if m.kind == rpc_request_vote
      then (c.unmarshal_vote m.body >>= λ args. some (some (vote_request args)))
      else if m.kind == rpc_append_entries
      then (c.unmarshal_append m.body >>= λ args. some (some (append_request args)))
      else if m.kind == rpc_install_snapshot
      then (c.unmarshal_snapshot m.body >>= λ args. some (some (snapshot_request args)))
      else some none

  -- One round: the registered node, if there is one, what the peer has sent, and the time.
  unfoldable pub handle_message : Option RaftNode → J → ℕ → Option (Handled J)
  unfolding request_in call_handler
  handle_message node value now = elim (c.decode_message value) [
    | none ↦ some closed
    | some m ↦ elim node [
      | none ↦ some closed
      | some s ↦ elim (request_in m) [
        | none ↦ some closed
        | some none ↦ some ignored
        | some (some request) ↦ call_handler s request now >>= λ (s', answer).
            some (replied s' (c.encode_answer answer))
      ]
    ]
  ]

  -- The loop over what a peer sends, each value with the time of its round, until the connection ends:
  -- the node, which changes by these calls alone, and what is written back.
  unfoldable pub handle_connection :
      Option RaftNode → List (J × ℕ) → Option (Option RaftNode × List J)
  unfolding handle_message
  handle_connection node [] = some (node, [])
  handle_connection node ((value, now) ∷ input) = handle_message node value now >>= λ handled.
      elim handled [
        | closed ↦ some (node, [])
        | ignored ↦ handle_connection node input
        | replied s' reply ↦
            handle_connection (some s') input >>= λ (last, more). some (last, reply ∷ more)
      ]

  abbrev pub message_of : Request → J
  message_of request =
      c.encode_message (record { kind = kind_of request; body = c.marshal request })

  -- `SendRequestVote`, `SendAppendEntries` and `SendInstallSnapshot` behind the dial: what is sent is
  -- `message_of`, and `received` what comes back, `none` where the connection fails.
  unfoldable pub send_request_vote : Option J → Option RequestVoteReply
  send_request_vote received = received >>= c.decode_vote

  unfoldable pub send_append_entries : Option J → Option AppendEntriesReply
  send_append_entries received = received >>= c.decode_append

  unfoldable pub send_install_snapshot : Option J → Option InstallSnapshotReply
  send_install_snapshot received = received >>= c.decode_snapshot
