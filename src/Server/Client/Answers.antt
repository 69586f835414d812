-- ===== src/Server/Client/Answers.antt =====
-- What a client connection of cmd/node/main.go answers.
use mathlib.Core.List.{append_assoc}
use mathlib.Core.Path.{subst}
use aegis_log.Common.{
  ℕ, ◌≤◌, ◌≡◌, refl, sym, ap, ◌∙◌, arith, true, false, Option, none, some, List, [], ◌∷◌, ◌++◌,
  length, Result, ok, err, IsU64, inl, inr, ◌⊎◌, Option-cases, Bool-cases,
}
use aegis_log.Network.Frame.{Frame, encode_frame, decode_frame, max_payload_size}
use aegis_log.Network.Frame.RoundTrip.{decode-encode, encode_frame-eq, frame_of}
use aegis_log.Raft.Types.{RaftError, RaftNode, is_leader}
use aegis_log.Raft.Election.{Proposal, propose, await, Step}
use aegis_log.Raft.Leader.{Saw, await-Saw}
use aegis_log.Server.Latency.{LatencyTracker}
use aegis_log.Server.State.{call_propose}
use aegis_log.Server.Client.{
  Reply, err_not_leader, err_propose, acked, Round, Served, frame_or_nil, outcome, answer, goes_on,
  handle_client_conn,
}

Result-cases : {E A : Type 0} (r : Result E A) → ((e : E) × (r ≡ err e)) ⊎ ((a : A) × (r ≡ ok a))
Result-cases (err e) = inl (e, refl)
Result-cases (ok a) = inr (a, refl)

-- The frames of requests, one behind the other.
abbrev pub sent : List (ℕ × List ℕ) → List ℕ
sent [] = []
sent ((o, p) ∷ qs) = frame_or_nil (encode_frame o p) ++ sent qs

decode-sent :
    (o : ℕ) (p rest : List ℕ)
    → length p ≤ max_payload_size
    → IsU64 o
    → decode_frame (frame_or_nil (encode_frame o p) ++ rest) ≡ ok (frame_of o p, rest)
decode-sent o p rest small u =
    let e = encode_frame-eq o p small in
    ap (λ f. decode_frame (frame_or_nil f ++ rest)) e ∙ decode-encode o p rest _ small u e

propose-term :
    (s : RaftNode) (payload : Option (List ℕ)) {step : Step} {p : Proposal}
    → propose s payload ≡ some (ok (step, p))
    → p.term ≡ s.current_term
unfolding propose
propose-term s payload h = ground arith

module _ {F : Type 0} where
  -- Each request that fits a frame gets the answer of its own round, and the loop goes on.
  pub data Answered
      : LatencyTracker F
        → List (ℕ × List ℕ)
        → List (Round F)
        → LatencyTracker F
        → List Reply
        → Type 0 where
    done : {t : LatencyTracker F} → Answered t [] [] t []
    more :
        (o : ℕ) (p : List ℕ) {qs : List (ℕ × List ℕ)} (r : Round F) {rs : List (Round F)}
        {t t' t'' : LatencyTracker F} (a : Reply) {answers : List Reply}
        → length p ≤ max_payload_size
        → IsU64 o
        → answer t r p ≡ some (t', some a)
        → goes_on r a ≡ true
        → Answered t' qs rs t'' answers
        → Answered t ((o, p) ∷ qs) (r ∷ rs) t'' (a ∷ answers)

  serve-end :
      (t : LatencyTracker F) (input : List ℕ)
      → handle_client_conn t input [] ≡ some (record { tracker = t; replies = []; running = true })
  unfolding handle_client_conn
  serve-end t input = refl

  serve-step :
      (t t' : LatencyTracker F) (input rest : List ℕ) (frame : Frame) (r : Round F)
      (rs : List (Round F)) (a : Reply) (later : Served F)
      → decode_frame input ≡ ok (frame, rest)
      → answer t r frame.payload ≡ some (t', some a)
      → goes_on r a ≡ true
      → handle_client_conn t' rest rs ≡ some later
      → handle_client_conn t input (r ∷ rs) ≡ some (record later { replies = a ∷ later.replies })
  unfolding handle_client_conn
  serve-step t t' input rest frame r rs a later decoded answered on run = ground arith

  -- Requests that a client sends one behind the other, without waiting, are answered one by one in order, each with the answer of its own round, as long as each fits a frame, no proposal is left waiting and no write of an acknowledgement fails; bytes behind them that are not yet looked at change nothing.
  pub serve-Answered :
      (t t' : LatencyTracker F) (qs : List (ℕ × List ℕ)) (rs : List (Round F))
      (answers : List Reply) (rest : List ℕ)
      → Answered t qs rs t' answers
      → handle_client_conn t (sent qs ++ rest) rs
        ≡ some (record { tracker = t'; replies = answers; running = true })
  unfolding frame_of
  serve-Answered t t' [] [] [] rest done = serve-end t rest
  serve-Answered t t' qs rs answers rest
        (more o p {qs = qs'} r {rs = rs'} {t' = t₁} a {answers = answers'} small u ans on tail) =
      let head = frame_or_nil (encode_frame o p) in
      let decoded = decode-sent o p (sent qs' ++ rest) small u in
      let later = serve-Answered t₁ t' qs' rs' answers' rest tail in
      ap (λ input. handle_client_conn t input (r ∷ rs')) (append_assoc head (sent qs') rest)
      ∙ serve-step t t₁ (head ++ (sent qs' ++ rest)) (sent qs' ++ rest) (frame_of o p) r rs' a _
          decoded ans on later

  -- Why a reply to a payload was given: an acknowledgement names the index of the proposal that `Propose` made of that payload, which a poll of its wait saw committed while the node led in the proposal's term.
  abbrev pub Earned : Round F → List ℕ → Reply → Type 0
  Earned r payload (acked i) =
      (step : Step) × (p : Proposal) × (propose r.proposed_to (some payload) ≡ some (ok (step, p)))
      × (p.index ≡ i)
      × (p.term ≡ r.proposed_to.current_term)
      × Saw p r.wakes
  Earned r payload (err_not_leader id) = (is_leader r.seen.role ≡ false) × (id ≡ r.seen.leader_id)
  Earned r payload (err_propose e) =
      (propose r.proposed_to (some payload) ≡ some (err e))
      ⊎ ((step : Step) × (p : Proposal) × (propose r.proposed_to (some payload)
            ≡ some (ok (step, p)))
          × (await p r.wakes ≡ some (err e)))

  -- Each reply is earned by the payload of its own frame of the input, in its own round.
  abbrev pub EachEarned : List ℕ → List (Round F) → List Reply → Type 0
  EachEarned input rs [] = Unit {0}
  EachEarned input [] (a ∷ answers) = ⊥
  EachEarned input (r ∷ rs) (a ∷ answers) =
      (frame : Frame) × (rest : List ℕ) × (decode_frame input ≡ ok (frame, rest))
      × Earned r frame.payload a
      × EachEarned rest rs answers

  outcome-Earned :
      (r : Round F) (payload : List ℕ) (step : Step) (p : Proposal) (res : Result RaftError ℕ)
      → propose r.proposed_to (some payload) ≡ some (ok (step, p))
      → await p r.wakes ≡ some res
      → Earned r payload (outcome res)
  outcome-Earned r payload step p (err e) proposed h = inr (step, p, proposed, h)
  outcome-Earned r payload step p (ok i) proposed h =
      let (e, saw) = await-Saw p r.wakes i h in
      (step, p, proposed, sym e, propose-term r.proposed_to (some payload) proposed, saw)

  answer-Earned :
      (t t' : LatencyTracker F) (r : Round F) (payload : List ℕ) (a : Reply)
      → answer t r payload ≡ some (t', some a)
      → Earned r payload a
  unfolding answer call_propose
  answer-Earned t t' r payload a h = elim (Bool-cases (is_leader r.seen.role)) [
    | inr not_leading ↦
        let e : a ≡ err_not_leader r.seen.leader_id = ground arith in
        subst (Earned r payload) (sym e) (not_leading, refl)
    | inl leads ↦ elim (Option-cases (propose r.proposed_to (some payload))) [
      | inl fault ↦ absurd (ground arith)
      | inr (err failed, proposed) ↦
          let e : a ≡ err_propose failed = ground arith in
          subst (Earned r payload) (sym e) (inl proposed)
      | inr (ok (step, p), proposed) ↦ elim (Option-cases (await p r.wakes)) [
        | inl waits ↦ absurd (ground arith)
        | inr (res, awaited) ↦
            let e : a ≡ outcome res = ground arith in
            subst (Earned r payload) (sym e) (outcome-Earned r payload step p res proposed awaited)
      ]
    ]
  ]

  -- Every reply on a connection is earned, whatever the client sends: an acknowledgement names the index of the proposal that `Propose` made in that round of the payload of that round's frame, which a poll of the round saw committed while the node led in the proposal's term; a redirect comes from a node that did not lead; and an error is the one of `Propose` or of the wait.
  pub serve-Earned :
      (t : LatencyTracker F) (input : List ℕ) (rs : List (Round F)) (served : Served F)
      → handle_client_conn t input rs ≡ some served
      → EachEarned input rs served.replies
  unfolding handle_client_conn
  serve-Earned t input [] served h =
      let e : served.replies ≡ [] = ground arith in subst (EachEarned input []) (sym e) tt
  serve-Earned t input (r ∷ rs) served h = elim (Result-cases (decode_frame input)) [
    | inl (failed, decoded) ↦
        let e : served.replies ≡ [] = ground arith in subst (EachEarned input (r ∷ rs)) (sym e) tt
    | inr ((frame, rest), decoded) ↦ elim (Option-cases (answer t r frame.payload)) [
      | inl fault ↦ absurd (ground arith)
      | inr ((t', none), waits) ↦
          let e : served.replies ≡ [] = ground arith in subst (EachEarned input (r ∷ rs)) (sym e) tt
      | inr ((t', some a), answered) ↦
          let earned = answer-Earned t t' r frame.payload a answered in
          elim (Bool-cases (goes_on r a)) [
            | inr stops ↦
                let e : served.replies ≡ a ∷ [] = ground arith in
                subst (EachEarned input (r ∷ rs)) (sym e) (frame, rest, decoded, earned, tt)
            | inl on ↦ elim (Option-cases (handle_client_conn t' rest rs)) [
              | inl fault ↦ absurd (ground arith)
              | inr (later, run) ↦
                  let e : served.replies ≡ a ∷ later.replies = ground arith in
                  subst (EachEarned input (r ∷ rs)) (sym e)
                    (frame, rest, decoded, earned, serve-Earned t' rest rs later run)
            ]
          ]
    ]
  ]
