-- ===== src/Server/Client.antt =====
-- The client connection of cmd/node/main.go, `handleClientConn`.
pub mod Answers
use Prim.Native.String.{String}
use aegis_log.Common.{
  ℕ, ◌==◌, if◌then◌else◌, Bool, true, false, not, Option, none, some, List, [], ◌∷◌, ◌++◌, Result,
  ok, err,
}
use aegis_log.Common.Faults.{◌>>=◌}
use aegis_log.Network.Frame.{Frame, FrameError, encode_frame, decode_frame}
use aegis_log.Raft.Types.{RaftError, RaftNode, is_leader}
use aegis_log.Raft.Election.{Wake}
use aegis_log.Server.Latency.{LatencyTracker, record_sample}
use aegis_log.Server.State.{call_propose}

-- What the server writes for a request: that it is not the leader, the error of the proposal, or the
-- committed index.
pub data Reply : Type 0 where
  err_not_leader : String → Reply
  err_propose : RaftError → Reply
  acked : ℕ → Reply

-- What one round of the loop sees: the node at `GetState` and at `Propose`, the events of the wait, the
-- duration of the proposal, and whether the write of the acknowledgement succeeds.
pub record Round (F : Type 0) : Type 0 where
  pub seen : RaftNode
  pub proposed_to : RaftNode
  pub wakes : List Wake
  pub elapsed : F
  pub ack_written : Bool

-- A connection: the tracker of the server, the replies in order, and whether the loop goes on.
pub record Served (F : Type 0) : Type 0 where
  pub tracker : LatencyTracker F
  pub replies : List Reply
  pub running : Bool

-- An encoded frame, or no bytes.
abbrev pub frame_or_nil : Result FrameError (List ℕ) → List ℕ
frame_or_nil (ok bytes) = bytes
frame_or_nil (err e) = []

-- The bytes of a reply, for the UTF-8 of the texts and the text of an error; no bytes where the frame
-- cannot be encoded.
module _ (utf8 : String → List ℕ) (error_text : RaftError → List ℕ) where
  unfoldable pub reply_bytes : Reply → List ℕ
  reply_bytes (err_not_leader id) =
      frame_or_nil (encode_frame 0 (utf8 "ERR_NOT_LEADER:" ++ utf8 id))
  reply_bytes (err_propose e) = frame_or_nil (encode_frame 0 (utf8 "ERR_PROPOSE:" ++ error_text e))
  reply_bytes (acked i) = frame_or_nil (encode_frame i (utf8 "OK"))

-- The result of the proposal.
abbrev pub outcome : Result RaftError ℕ → Reply
outcome (ok i) = acked i
outcome (err e) = err_propose e

module _ {F : Type 0} where
  -- The part of a round behind the frame: the tracker and the reply, which is `none` while the
  -- proposal waits.
  unfoldable pub answer :
      LatencyTracker F → Round F → List ℕ → Option (LatencyTracker F × Option Reply)
  answer t r payload =
      if not (is_leader r.seen.role)
      then some (t, some (err_not_leader r.seen.leader_id))
      else (call_propose r.proposed_to payload r.wakes >>= λ (step, result). elim result [
        | none ↦ some (t, none)
        | some res ↦ record_sample t r.elapsed >>= λ t'. some (t', some (outcome res))
      ])

  -- The write of an acknowledgement that fails ends the loop; the other writes are not looked at.
  abbrev pub goes_on : Round F → Reply → Bool
  goes_on r (acked i) = r.ack_written
  goes_on r reply = true

  -- The loop over the bytes that the client sends, one round for each frame. It stops with the last
  -- round that is known, at bytes that are no frame, and where a proposal waits.
  unfoldable pub handle_client_conn : LatencyTracker F → List ℕ → List (Round F) → Option (Served F)
  unfolding answer
  handle_client_conn t input [] = some (record { tracker = t; replies = []; running = true })
  handle_client_conn t input (r ∷ rounds) = elim (decode_frame input) [
    | err e ↦ some (record { tracker = t; replies = []; running = false })
    | ok (frame, rest) ↦ answer t r frame.payload >>= λ (t', reply). elim reply [
      | none ↦ some (record { tracker = t'; replies = []; running = true })
      | some reply ↦ elim (goes_on r reply) [
        | false ↦ some (record { tracker = t'; replies = reply ∷ []; running = false })
        | true ↦ handle_client_conn t' rest rounds >>= λ served.
            some (record served { replies = reply ∷ served.replies })
      ]
    ]
  ]
