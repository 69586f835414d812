-- ===== src/Raft/Ballot/Once.antt =====
-- A node of raft/consensus.go votes once in a term, whatever happens between two requests.
use text.Mathlib.TextEquality.{eq_iff}
use aegis_log.Common.{
  ℕ, ◌≤◌, ◌<◌, ◌≡◌, ◌≢◌, refl, sym, ◌∙◌, arith, true, false, some, ◌⊎◌, inl, inr,
}
use aegis_log.Raft.Types.{RaftNode, RequestVoteArgs, RequestVoteReply}
use aegis_log.Raft.Node.{step_down}
use aegis_log.Raft.Handlers.{handle_request_vote, answer_vote}
use aegis_log.Raft.Ballot.{
  NodeStep, Reach, IsStepUnwrapped, IsUnwrapped, Holds, request_vote, append_entries,
  install_snapshot, compact, pre_vote_reply, election, vote_reply, append_reply, snapshot_reply,
  proposal, applier, here, next,
}
use aegis_log.Raft.Ballot.Steps.{
  handle_append_entries-Holds, handle_request_vote-Holds, handle_install_snapshot-Holds,
  take_snapshot-Holds, on_pre_vote_reply-Holds, start_election-Holds, on_vote_reply-Holds,
  on_append_reply-Holds, on_snapshot_reply-Holds, propose-Holds, apply_committed-Holds,
}
use mathlib.Core.Path.{subst}

pub NodeStep-Holds : (s s' : RaftNode) (st : NodeStep s s') → IsStepUnwrapped st → Holds s s'
NodeStep-Holds s s' (request_vote args now reply h) u = handle_request_vote-Holds s args now h
NodeStep-Holds s s' (append_entries args now reply h) u = handle_append_entries-Holds s args now h
NodeStep-Holds s s' (install_snapshot args now reply restore h) u =
    handle_install_snapshot-Holds s args now h
NodeStep-Holds s s' (compact index state h) u = take_snapshot-Holds s index state h
NodeStep-Holds s s' (pre_vote_reply votes reply now h) u =
    subst (Holds s) (sym h) (on_pre_vote_reply-Holds s votes reply now)
NodeStep-Holds s s' (election now messages h) u = start_election-Holds s now u h
NodeStep-Holds s s' (vote_reply term votes reply now messages votes' h) u =
    on_vote_reply-Holds s term votes reply now h
NodeStep-Holds s s' (append_reply target term reply now messages h) u =
    on_append_reply-Holds s target term reply now h
NodeStep-Holds s s' (snapshot_reply target term sent reply now h) u =
    subst (Holds s) (sym h) (on_snapshot_reply-Holds s target term sent reply now)
NodeStep-Holds s s' (proposal payload messages p h) u = propose-Holds s payload h
NodeStep-Holds s s' (applier handed h) u = apply_committed-Holds s h

Holds-trans : {s t u : RaftNode} → Holds s t → Holds t u → Holds s u
Holds-trans {s} {t} {u} a b = record {
  term = omega (arith, a.term, b.term);
  vote = λ e v.
      let same : t.current_term ≡ s.current_term = omega (arith, a.term, b.term) in
      let kept : t.voted_for ≡ s.voted_for = a.vote same v in
      b.vote (e ∙ sym same) (λ n. v (sym kept ∙ n)) ∙ kept;
  same_id = b.same_id ∙ a.same_id;
  same_peers = b.same_peers ∙ a.same_peers;
}

-- Whatever steps a node takes, as long as each election on the way starts below the last term of 64 bits, its term never falls, and within a term a vote once given stands.
pub Reach-Holds : (s s' : RaftNode) (reach : Reach s s') → IsUnwrapped reach → Holds s s'
Reach-Holds s s' here u = record {
  term = omega arith;
  vote = λ e v. refl;
  same_id = refl;
  same_peers = refl;
}
Reach-Holds s s' (next {t} r st) (u, v) =
    Holds-trans (Reach-Holds s t r u) (NodeStep-Holds t s' st v)

-- What a vote says of the node.
pub record Voted (s s' : RaftNode) (args : RequestVoteArgs) : Type 0 where
  pub in_term : s'.current_term ≡ args.term
  pub for_candidate : s'.voted_for ≡ args.candidate_id
  pub not_later : s.current_term ≤ args.term
  pub free : s.current_term ≡ args.term → (s.voted_for ≡ "") ⊎ (s.voted_for ≡ args.candidate_id)

answer_vote-Voted :
    (s : RaftNode) (args : RequestVoteArgs) (now : ℕ) {s' : RaftNode} {r : RequestVoteReply}
    → s.current_term ≡ args.term ⊎ (args.term < s.current_term)
    → args.is_pre_vote ≡ false
    → answer_vote s args now ≡ some (s', r)
    → r.vote_granted ≡ true
    → Voted s s' args × (s.current_term ≡ args.term)
unfolding answer_vote
answer_vote-Voted s args now t p h g =
    ground (arith, eq_iff s.voted_for "", eq_iff s.voted_for args.candidate_id)

pub handle_request_vote-Voted :
    (s : RaftNode) (args : RequestVoteArgs) (now : ℕ) {s' : RaftNode} {r : RequestVoteReply}
    → args.is_pre_vote ≡ false
    → handle_request_vote s args now ≡ some (s', r)
    → r.vote_granted ≡ true
    → Voted s s' args
unfolding handle_request_vote step_down
handle_request_vote-Voted s args now {s'} {r} p h g = ground (
  arith,
  answer_vote-Voted s args now {s' = s'} {r = r},
  answer_vote-Voted (step_down s args.term now) args now {s' = s'} {r = r},
)

-- Two votes that a node grants in one term, whatever steps it takes between the two requests, go to the same candidate, if the first candidate's name is not empty and each election between them starts below the last term of 64 bits.
pub vote_once :
    (s₁ s₂ s₃ s₄ : RaftNode) (first second : RequestVoteArgs) (now₁ now₂ : ℕ)
    {r₁ r₂ : RequestVoteReply}
    → first.is_pre_vote ≡ false
    → second.is_pre_vote ≡ false
    → first.term ≡ second.term
    → first.candidate_id ≢ ""
    → handle_request_vote s₁ first now₁ ≡ some (s₂, r₁)
    → r₁.vote_granted ≡ true
    → (reach : Reach s₂ s₃) → IsUnwrapped reach
    → handle_request_vote s₃ second now₂ ≡ some (s₄, r₂)
    → r₂.vote_granted ≡ true
    → second.candidate_id ≡ first.candidate_id
vote_once s₁ s₂ s₃ s₄ first second now₁ now₂ p₁ p₂ t named h₁ g₁ reach unwrapped h₂ g₂ =
    let a = handle_request_vote-Voted s₁ first now₁ p₁ h₁ g₁ in
    let b = handle_request_vote-Voted s₃ second now₂ p₂ h₂ g₂ in
    let k = Reach-Holds s₂ s₃ reach unwrapped in
    let same : s₃.current_term ≡ s₂.current_term =
      omega (arith, a.in_term, b.not_later, k.term, t) in
    let kept : s₃.voted_for ≡ first.candidate_id =
      k.vote same (λ n. named (sym a.for_candidate ∙ n)) ∙ a.for_candidate in
    elim (b.free (same ∙ a.in_term ∙ t)) [
      | inl none_yet ↦ absurd (named (sym kept ∙ none_yet))
      | inr this ↦ sym this ∙ kept
    ]
