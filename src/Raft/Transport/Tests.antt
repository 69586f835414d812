-- ===== src/Raft/Transport/Tests.antt =====
-- Two requests over a connection of raft/tcp_transport.go, with JSON values that keep what they encode.
use aegis_log.Common.{ℕ, ◌≡◌, refl, true, false, none, some, List, [], ◌∷◌}
use aegis_log.Raft.Types.{RaftNode, RequestVoteArgs, Config}
use aegis_log.Raft.Node.{new_raft_node, last_log_index, last_log_term}
use aegis_log.Raft.Handlers.{handle_request_vote, answer_vote}
use aegis_log.Raft.Transport.{
  Request, Answer, vote_request, append_request, snapshot_request, vote_answer, append_answer,
  snapshot_answer, Codec, handle_connection, call_handler,
}
use aegis_log.Raft.Transport.Exchange.{
  IsCodec, Calls, none_left, call, messages, handle_connection-Calls,
}

data Value : Type 0 where
  args : Request → Value
  result : Answer → Value
  message : ℕ → Value → Value

abbrev codec : Codec Value
codec = record {
  encode_message = λ m. message m.kind m.body;
  decode_message = λ v. elim v [ message k b ↦ some (record { kind = k; body = b }) | _ ↦ none ];
  marshal = args;
  unmarshal_vote = λ v. elim v [ args (vote_request a) ↦ some a | _ ↦ none ];
  unmarshal_append = λ v. elim v [ args (append_request a) ↦ some a | _ ↦ none ];
  unmarshal_snapshot = λ v. elim v [ args (snapshot_request a) ↦ some a | _ ↦ none ];
  encode_answer = result;
  decode_vote = λ v. elim v [ result (vote_answer a) ↦ some a | _ ↦ none ];
  decode_append = λ v. elim v [ result (append_answer a) ↦ some a | _ ↦ none ];
  decode_snapshot = λ v. elim v [ result (snapshot_answer a) ↦ some a | _ ↦ none ];
}

codec-IsCodec : IsCodec codec
codec-IsCodec = record {
  message = λ m. refl;
  vote = λ a. refl;
  append = λ a. refl;
  snapshot = λ a. refl;
}

abbrev config : Config
config = record {
  id = "2";
  peers = "1" ∷ "3" ∷ [];
  election_min_ms = 350;
  election_max_ms = 700;
  heartbeat_interval = 80;
  on_commit = true;
  on_restore_snapshot = true;
  initial_commit_index = 0;
}

abbrev ballot : RequestVoteArgs
ballot = record {
  term = 1;
  candidate_id = "1";
  last_log_index = 0;
  last_log_term = 0;
  is_pre_vote = false;
}

abbrev requests : List (Request × ℕ)
requests =
    (vote_request ballot, 400) ∷ (vote_request (record ballot { candidate_id = "3" }), 410) ∷ []

-- The first candidate gets the vote, the second does not.
two_calls :
    (s' : RaftNode) × Calls (new_raft_node config 0) requests s' (
      vote_answer (record { term = 1; vote_granted = true })
      ∷ vote_answer (record { term = 1; vote_granted = false })
      ∷ [])
unfolding new_raft_node call_handler handle_request_vote answer_vote last_log_index last_log_term
two_calls = (
  _,
  call (vote_request ballot) 400 refl
      (call (vote_request (record ballot { candidate_id = "3" })) 410 refl none_left),
)

handle_connection-Calls_example :
    handle_connection codec (some (new_raft_node config 0)) (messages codec requests)
    ≡ some (
      some two_calls.0,
      result (vote_answer (record { term = 1; vote_granted = true }))
          ∷ result (vote_answer (record { term = 1; vote_granted = false }))
          ∷ [],
    )
handle_connection-Calls_example =
    handle_connection-Calls codec codec-IsCodec (new_raft_node config 0) two_calls.0 requests
      (vote_answer (record { term = 1; vote_granted = true })
        ∷ vote_answer (record { term = 1; vote_granted = false })
        ∷ [])
      two_calls.1
