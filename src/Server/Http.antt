-- ===== src/Server/Http.antt =====
-- The HTTP handlers of cmd/node/main.go. `strconv`, the JSON codec and the clock are parameters: what
-- they give stands in the request.
pub mod Answers
use Prim.Native.String.{String}
use text.Mathlib.Text.{◌==◌ as str_eq}
use aegis_log.Common.{
  ℕ, ◌-◌, ◌^◌, ltb, leb, ◌==◌, if◌then◌else◌, Bool, true, false, not, ◌&&◌, Option, none, some,
  List, [], ◌∷◌, Result, ok, err, u32,
}
use aegis_log.Common.Faults.{◌>>=◌}
use aegis_log.Raft.Types.{NodeRole, RaftError, RaftNode, raw_string}
use aegis_log.Raft.Handlers.{take_snapshot}
use aegis_log.Raft.Election.{Wake}
use aegis_log.Storage.Segment.{SegmentError}
use aegis_log.Storage.Wal.{Wal, read_at, latest_offset}
use aegis_log.Server.Latency.{LatencyTracker, record_sample, percentiles}
use aegis_log.Server.State.{NodeServer, get_state, get_snapshot_state, call_propose}

-- What a handler answers: the status, and the text of an error or the fields of the JSON object.
pub data Body : Type 0 where
  method_not_allowed cannot_snapshot invalid_offset bad_request no_body terminating : Body
  raft_failed : RaftError → Body
  read_failed : SegmentError → Body
  snapshot_created : ℕ → ℕ → ℕ → String → Body
  committed : ℕ → Body
  workload_launched : ℕ → ℕ → ℕ → Body
  payload_at : ℕ → String → Body
  partition_is : Bool → Body
  latency_is : ℕ → Body

pub record Response : Type 0 where
  pub status : ℕ
  pub body : Body

abbrev pub respond : ℕ → Body → Response
respond status body = record { status = status; body = body }

-- `strconv.Atoi`: the number as an int64 word, and whether there was no error.
abbrev pub Parsed : Type 0
Parsed = ℕ × Bool

-- `c > 0 && c <= most` of a number that was parsed without error, or the default.
abbrev pub clamp : ℕ → ℕ → Parsed → ℕ
clamp default most (c, valid) =
    if valid && (ltb 0 c && (ltb c (2 ^ 63) && leb c most)) then c else default

module _ {F : Type 0} where
  -- `state` is the payload that the handler formats. The handler locks the node three times: what
  -- others do to it is `between` before `TakeSnapshot`, and `later` before `GetSnapshotState`.
  unfoldable pub handle_http_snapshot_trigger :
      (RaftNode → RaftNode)
      → (RaftNode → RaftNode)
      → NodeServer F
      → String
      → List ℕ
      → Option (NodeServer F × Response)
  handle_http_snapshot_trigger between later s method state =
      let (role, term, commit, leader) = get_state s.raft_node in
      if not (str_eq method "POST")
      then some (s, respond 405 method_not_allowed)
      else if commit == 0
      then some (s, respond 400 cannot_snapshot)
      else (take_snapshot (between s.raft_node) commit state >>= λ result. elim result [
        | err e ↦ some (record s { raft_node = between s.raft_node }, respond 500 (raft_failed e))
        | ok node ↦
            let (index, last_term, len) = get_snapshot_state (later node) in
            some (
              record s { raft_node = later node },
              respond 200 (snapshot_created index last_term len (raw_string role)),
            )
      ])

  -- `payload` is what the JSON body has, `later` the node when the call returns; `none` inside where
  -- the proposal waits.
  unfoldable pub handle_http_produce :
      NodeServer F
      → String
      → Option (List ℕ)
      → List Wake
      → RaftNode
      → F
      → Option (Option (NodeServer F × Response))
  handle_http_produce s method payload wakes later elapsed =
      if not (str_eq method "POST")
      then some (some (s, respond 405 method_not_allowed))
      else elim payload [
        | none ↦ some (some (s, respond 400 bad_request))
        | some p ↦ call_propose s.raft_node p wakes >>= λ (step, result). elim result [
          | none ↦ some none
          | some res ↦ record_sample s.latency_tracker elapsed >>= λ tracker.
              let s' = record s { raft_node = later; latency_tracker = tracker } in
              elim res [
                | err e ↦ some (some (s', respond 503 (raft_failed e)))
                | ok index ↦ some (some (s', respond 200 (committed index)))
              ]
        ]
      ]

  -- The answer; the workload runs as a client of the server's own port.
  unfoldable pub handle_http_workload_start : NodeServer F → Parsed → Parsed → Response
  handle_http_workload_start s conns messages =
      respond 200 (workload_launched (clamp 3 20 conns) (clamp 15 100 messages) s.client_port)

  -- `offset` is what `strconv.ParseUint` gives for the parameter of that name.
  -- `text` is the JSON string of `string(data)`, which keeps only bytes that are valid UTF-8.
  unfoldable pub handle_http_consume : (List ℕ → String) → NodeServer F → Option ℕ → Option Response
  handle_http_consume text s none = some (respond 400 invalid_offset)
  handle_http_consume text s (some offset) = read_at s.wal offset >>= λ result. elim result [
    | err e ↦ some (respond 404 (read_failed e))
    | ok payload ↦ some (respond 200 (payload_at offset (text payload)))
  ]

  unfoldable pub handle_http_chaos_partition : NodeServer F → String → NodeServer F × Response
  handle_http_chaos_partition s active =
      let state = str_eq active "true" in
      (record s { partitioned = if state then 1 else 0 }, respond 200 (partition_is state))

  -- The error of `Atoi` is dropped; the word is cut to an int32.
  unfoldable pub handle_http_chaos_latency : NodeServer F → Parsed → NodeServer F × Response
  handle_http_chaos_latency s (ms, valid) =
      (record s { latency_ms = u32 ms }, respond 200 (latency_is ms))

-- `corsMiddleware`: an OPTIONS request is answered without the handler behind it.
unfoldable pub cors_middleware :
    {S : Type 0} → String → S → (S → Option (S × Response)) → Option (S × Response)
cors_middleware method s next =
    if str_eq method "OPTIONS" then some (s, respond 200 no_body) else next s
