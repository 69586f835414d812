-- ===== src/Raft/Transport/Exchange.antt =====
-- Requests that reach a peer over raft/tcp_transport.go.
use aegis_log.Common.{ℕ, ◌≡◌, refl, some, List, [], ◌∷◌}
use aegis_log.Raft.Types.{RaftNode, RequestVoteArgs, AppendEntriesArgs, InstallSnapshotArgs}
use aegis_log.Raft.Transport.{
  NetworkRpcMessage, Request, Answer, vote_request, append_request, snapshot_request, kind_of,
  call_handler, Codec, request_in, handle_message, handle_connection, message_of, replied,
}

-- What the code relies on: each value is read back from its own encoding.
pub record IsCodec {J : Type 0} (c : Codec J) : Type 0 where
  pub message : (m : NetworkRpcMessage J) → c.decode_message (c.encode_message m) ≡ some m
  pub vote : (args : RequestVoteArgs) → c.unmarshal_vote (c.marshal (vote_request args)) ≡ some args
  pub append :
      (args : AppendEntriesArgs) → c.unmarshal_append (c.marshal (append_request args)) ≡ some args
  pub snapshot :
      (args : InstallSnapshotArgs)
      → c.unmarshal_snapshot (c.marshal (snapshot_request args)) ≡ some args

-- A run of calls of the handlers, one behind the other, with the replies.
pub data Calls : RaftNode → List (Request × ℕ) → RaftNode → List Answer → Type 0 where
  none_left : {s : RaftNode} → Calls s [] s []
  call :
      {s s' s'' : RaftNode} (request : Request) (now : ℕ) {answer : Answer}
      {requests : List (Request × ℕ)} {answers : List Answer}
      → call_handler s request now ≡ some (s', answer)
      → Calls s' requests s'' answers
      → Calls s ((request, now) ∷ requests) s'' (answer ∷ answers)

module _ {J : Type 0} (c : Codec J) where
  abbrev pub messages : List (Request × ℕ) → List (J × ℕ)
  messages [] = []
  messages ((r, now) ∷ rs) = (message_of c r, now) ∷ messages rs

  abbrev pub replies : List Answer → List J
  replies [] = []
  replies (a ∷ more) = c.encode_answer a ∷ replies more

  module _ (k : IsCodec c) where
    request_in-marshal :
        (r : Request)
        → request_in c (record { kind = kind_of r; body = c.marshal r }) ≡ some (some r)
    unfolding request_in
    request_in-marshal (vote_request args) = rw (k.vote args) refl
    request_in-marshal (append_request args) = rw (k.append args) refl
    request_in-marshal (snapshot_request args) = rw (k.snapshot args) refl

    handle_message-sent :
        (s s' : RaftNode) (r : Request) (now : ℕ) (a : Answer)
        → call_handler s r now ≡ some (s', a)
        → handle_message c (some s) (message_of c r) now ≡ some (replied s' (c.encode_answer a))
    unfolding handle_message
    handle_message-sent s s' r now a h =
        let m : NetworkRpcMessage J = record { kind = kind_of r; body = c.marshal r } in
        rw (handle_message, k.message m, request_in-marshal r, h) refl

    -- Requests that a peer sends over one connection reach the registered node in order, each by the handler of its own kind, and the replies go back in order, if JSON reads back what it writes.
    pub handle_connection-Calls :
        (s s' : RaftNode) (requests : List (Request × ℕ)) (answers : List Answer)
        → Calls s requests s' answers
        → handle_connection c (some s) (messages requests) ≡ some (some s', replies answers)
    unfolding handle_connection
    handle_connection-Calls s s' [] [] none_left = refl
    handle_connection-Calls s s' requests answers
          (call {s' = t} request now {answer} {requests = later} {answers = more} h tail) =
        rw
          (
            handle_message-sent s t request now answer h,
            handle_connection-Calls t s' later more tail,
          )
          refl
