-- ===== src/Raft/Append/Accept.antt =====
-- Which requests `HandleAppendEntries` of raft/consensus.go accepts.
use mathlib.Core.Path.{subst}
use mathlib.Core.Bool.{false≢true}
use native.Mathlib.Decide.{dec_lt, ℕ_discrete}
use aegis_log.Common.{
  ℕ, suc, ◌+◌, ◌-◌, ◌^◌, ◌≤◌, ◌<◌, ◌≡◌, ◌≢◌, sym, ap, ◌∙◌, arith, Bool, true, false, Option, some,
  List, length, get_elem?, length-drop, get_elem?-bound, ◌⊎◌, inl, inr,
}
use mathlib.Core.Option.{some-injective}
use aegis_log.Raft.Types.{LogEntry, AppendEntriesArgs, AppendEntriesReply, RaftNode}
use aegis_log.Raft.Node.{get_log_term, term_of}
use aegis_log.Raft.Handlers.{append_reply, store_entries, handle_append_entries}
use aegis_log.Raft.Log.{
  Indexed, IsWellFormed, Indexed-drop, get_elem?_index, get_log_term-eq, Anchored-length,
  Anchored-head,
}
use aegis_log.Raft.Append.Entries.{put_entries-IsPutAll}
use aegis_log.Raft.Append.Outcome.{
  IsRequest, followed, fresh, followed-IsWellFormed, store_entries-gap, store_entries-conflict,
  store_entries-put, handle_append_entries-stale, handle_append_entries-compacted,
  handle_append_entries-trimmed, handle_append_entries-plain,
}

-- The request is of the node's term or a later one, and it begins inside the snapshot or behind an entry that the log has with the term that the request names.
pub record IsAccepted (s : RaftNode) (args : AppendEntriesArgs) : Type 0 where
  pub in_term : s.current_term ≤ args.term
  pub attached :
      (args.prev_log_index < s.last_included_index)
      ⊎ ((e : LogEntry) × (s.last_included_index ≤ args.prev_log_index)
          × (get_elem? s.log (args.prev_log_index - s.last_included_index) ≡ some e)
          × (e.term ≡ args.prev_log_term))

abbrev Says : Option (RaftNode × AppendEntriesReply) → Bool → Type 0
Says o b = (s' : RaftNode) × (at : ℕ) × (o ≡ some (append_reply s' b at))

store_entries-accepts :
    (s : RaftNode) (prev prev_term : ℕ) (es : List LogEntry) (lc : ℕ)
    → IsWellFormed s
    → s.last_included_index ≤ prev
    → prev < s.last_included_index + length s.log
    → get_log_term s prev ≡ some prev_term
    → prev + length es < 2 ^ 63
    → Indexed (suc prev) es
    → Says (store_entries s prev prev_term es lc) true
store_entries-accepts s prev prev_term es lc w lo hi t r x =
    let (after, q, _) =
      put_entries-IsPutAll es s (suc prev) w (omega arith) (omega arith) (omega arith) x in
    (_, _, store_entries-put s prev prev_term es lc w hi t q r)

module _ (s : RaftNode) (args : AppendEntriesArgs) (now : ℕ) (w : IsWellFormed s)
    (q : IsRequest args) (h : s.current_term ≤ args.term) where
  trimmed-Says :
      args.prev_log_index < s.last_included_index
      → s.last_included_index - args.prev_log_index < length args.entries
      → Says (handle_append_entries s args now) true
  trimmed-Says p l =
      let gap = s.last_included_index - args.prev_log_index in
      let lii = s.last_included_index in
      let first : suc args.prev_log_index + gap ≡ suc lii = omega arith in
      let pos = Anchored-length s.last_included_term s.log w.anchored in
      let w' = followed-IsWellFormed s args now w in
      let zero_at : lii - lii ≡ 0 = omega arith in
      let anchor : get_log_term (followed s args now) lii ≡ some s.last_included_term =
        get_log_term-eq (followed s args now) lii w' (omega arith) (omega arith)
        ∙ ap (λ k. term_of (get_elem? s.log k)) zero_at
        ∙ Anchored-head s.last_included_term s.log w.anchored in
      rw (handle_append_entries-trimmed s args now h p l) (
        store_entries-accepts (followed s args now) lii s.last_included_term (fresh s args)
          args.leader_commit w' (omega arith) (omega arith) anchor
          (omega (arith, length-drop gap args.entries, q.in_range))
          (subst (λ k. Indexed k (fresh s args)) first
            (Indexed-drop _ gap args.entries q.indexed (omega arith))))

  behind-Says :
      args.prev_log_index < s.last_included_index → Says (handle_append_entries s args now) true
  behind-Says p =
      elim (dec_lt (s.last_included_index - args.prev_log_index) (length args.entries)) [
        | yes some_left ↦ trimmed-Says p some_left
        | no all_gone ↦ (_, _, handle_append_entries-compacted s args now h p (omega arith))
      ]

  gap-Says :
      s.last_included_index ≤ args.prev_log_index
      → s.last_included_index + length s.log ≤ args.prev_log_index
      → Says (handle_append_entries s args now) false
  gap-Says lo out = rw (handle_append_entries-plain s args now h lo) (
    _,
    _,
    store_entries-gap (followed s args now) args.prev_log_index args.prev_log_term args.entries
        args.leader_commit (followed-IsWellFormed s args now w) out,
  )

  module _ (e : LogEntry) (lo : s.last_included_index ≤ args.prev_log_index)
      (hi : args.prev_log_index < s.last_included_index + length s.log)
      (found : get_elem? s.log (args.prev_log_index - s.last_included_index) ≡ some e) where
    held_term : get_log_term (followed s args now) args.prev_log_index ≡ some e.term
    unfolding term_of
    held_term =
        get_log_term-eq (followed s args now) args.prev_log_index
          (followed-IsWellFormed s args now w) lo hi
        ∙ ap term_of found

    attached-Says : e.term ≡ args.prev_log_term → Says (handle_append_entries s args now) true
    attached-Says same = rw (handle_append_entries-plain s args now h lo) (
        store_entries-accepts (followed s args now) args.prev_log_index args.prev_log_term
          args.entries args.leader_commit (followed-IsWellFormed s args now w) lo hi
          (held_term ∙ ap some same) q.in_range q.indexed)

    conflict-Says : e.term ≢ args.prev_log_term → Says (handle_append_entries s args now) false
    conflict-Says ne = rw (handle_append_entries-plain s args now h lo) (
      _,
      _,
      store_entries-conflict (followed s args now) args.prev_log_index args.prev_log_term
          args.entries args.leader_commit (followed-IsWellFormed s args now w) held_term ne,
    )

abbrev Decided : RaftNode → AppendEntriesArgs → ℕ → Type 0
Decided s args now =
    (IsAccepted s args × Says (handle_append_entries s args now) true)
    ⊎ ((IsAccepted s args → ⊥) × Says (handle_append_entries s args now) false)

attached_only :
    (s : RaftNode) (args : AppendEntriesArgs) (e : LogEntry)
    → s.last_included_index ≤ args.prev_log_index
    → get_elem? s.log (args.prev_log_index - s.last_included_index) ≡ some e
    → IsAccepted s args
    → e.term ≡ args.prev_log_term
attached_only s args e lo found k = elim k.attached [
  | inl behind ↦ absurd (omega arith)
  | inr (d, _, p, t) ↦ ap (λ x. x.term) (some-injective e d (sym found ∙ p)) ∙ t
]

handle_append_entries-Decided :
    (s : RaftNode) (args : AppendEntriesArgs) (now : ℕ)
    → IsWellFormed s
    → IsRequest args
    → Decided s args now
handle_append_entries-Decided s args now w q = elim (dec_lt args.term s.current_term) [
  | yes old ↦
      inr (λ k. omega (arith, k.in_term), (_, _, handle_append_entries-stale s args now old))
  | no new ↦
      let h : s.current_term ≤ args.term = omega arith in
      elim (dec_lt args.prev_log_index s.last_included_index) [
        | yes behind ↦
            inl (record { in_term = h; attached = inl behind }, behind-Says s args now w q h behind)
        | no ahead ↦
            let lo : s.last_included_index ≤ args.prev_log_index = omega arith in
            let at = args.prev_log_index - s.last_included_index in
            elim (dec_lt args.prev_log_index (s.last_included_index + length s.log)) [
              | no out ↦ inr (
                λ k. elim k.attached [
                  | inl behind ↦ absurd (ahead behind)
                  | inr (e, _, p, _) ↦ absurd (omega (arith, get_elem?-bound s.log at p))
                ],
                gap-Says s args now w q h lo (omega arith),
              )
              | yes hi ↦
                  let (e, p, _) =
                    get_elem?_index s.last_included_index at s.log w.indexed (omega arith) in
                  elim (ℕ_discrete e.term args.prev_log_term) [
                    | yes same ↦ inl (
                      record { in_term = h; attached = inr (e, lo, p, same) },
                      attached-Says s args now w q h e lo hi p same,
                    )
                    | no ne ↦ inr (
                      λ k. ne (attached_only s args e lo p k),
                      conflict-Says s args now w q h e lo hi p ne,
                    )
                  ]
            ]
      ]
]

success-Says :
    {o : Option (RaftNode × AppendEntriesReply)} {b : Bool} {s' : RaftNode} {r : AppendEntriesReply}
    → Says o b
    → o ≡ some (s', r)
    → r.success ≡ b
success-Says (_, _, e) h = ground arith

-- A well-formed node answers success to a request with indexed entries below 2 ^ 63 exactly when the request's term is not behind its own, and the request begins inside the snapshot or right behind an entry that the log has with the term that the request names.
pub append_answers :
    (s : RaftNode) (args : AppendEntriesArgs) (now : ℕ) {s' : RaftNode} {r : AppendEntriesReply}
    → IsWellFormed s
    → IsRequest args
    → handle_append_entries s args now ≡ some (s', r)
    → (r.success ≡ true → IsAccepted s args) × (IsAccepted s args → r.success ≡ true)
append_answers s args now w q h = elim (handle_append_entries-Decided s args now w q) [
  | inl (k, says) ↦ (λ _. k, λ _. success-Says says h)
  | inr (refuses, says) ↦
      (λ t. absurd (false≢true (sym (success-Says says h) ∙ t)), λ k. absurd (refuses k))
]
