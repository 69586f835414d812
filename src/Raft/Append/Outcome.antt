-- ===== src/Raft/Append/Outcome.antt =====
-- The outcomes of `HandleAppendEntries`, raft/consensus.go, on a well-formed node.
use mathlib.Core.Path.{subst}
use native.Mathlib.Decide.{dec_lt, ℕ_discrete}
use aegis_log.Common.{
  ℕ, suc, ◌+◌, ◌-◌, ◌^◌, ◌≤◌, ◌<◌, ◌≡◌, ◌≢◌, ap, ◌∙◌, arith, true, false, Option, some, List, [],
  length, drop, length-drop, drop_all, u64, max, ◌⊎◌, inl, inr,
}
use aegis_log.Raft.Types.{LogEntry, AppendEntriesArgs, AppendEntriesReply, RaftNode}
use aegis_log.Raft.Node.{get_log_term}
use aegis_log.Raft.Handlers.{
  accept_entries, put_entries, advance_commit, append_reply, store_entries, handle_append_entries,
}
use aegis_log.Raft.Log.{
  Indexed, IsWellFormed, Indexed-drop, last_log_index-eq, get_log_term_total, Anchored-length,
}
use aegis_log.Raft.Follow.{joined, joined-IsWellFormed}
use aegis_log.Raft.Append.Put.{with_log}
use aegis_log.Raft.Append.Entries.{IsPutAll, put_entries-IsPutAll}

-- What a leader's request is: entries under the indices behind `prev_log_index`, below 2 ^ 63.
pub record IsRequest (args : AppendEntriesArgs) : Type 0 where
  pub indexed : Indexed (suc args.prev_log_index) args.entries
  pub in_range : args.prev_log_index + length args.entries < 2 ^ 63

-- The node that has followed the sender of the request.
abbrev pub followed : RaftNode → AppendEntriesArgs → ℕ → RaftNode
followed s args now = joined s args.term args.leader_id now

-- The index before the entries that are not compacted yet, and those entries.
abbrev pub start : RaftNode → AppendEntriesArgs → ℕ
start s args = max args.prev_log_index s.last_included_index

abbrev pub fresh : RaftNode → AppendEntriesArgs → List LogEntry
fresh s args = drop (s.last_included_index - args.prev_log_index) args.entries

abbrev pub last_new : RaftNode → AppendEntriesArgs → ℕ
last_new s args = start s args + length (fresh s args)

pub followed-IsWellFormed :
    (s : RaftNode) (args : AppendEntriesArgs) (now : ℕ)
    → IsWellFormed s
    → IsWellFormed (followed s args now)
followed-IsWellFormed s args now w = joined-IsWellFormed s args.term args.leader_id now w

pub last_new-lt :
    (s : RaftNode) (args : AppendEntriesArgs)
    → IsWellFormed s
    → IsRequest args
    → last_new s args < 2 ^ 63
last_new-lt s args w q = omega (
  arith,
  w.in_range,
  q.in_range,
  Anchored-length s.last_included_term s.log w.anchored,
  length-drop (s.last_included_index - args.prev_log_index) args.entries,
)

module _ (s : RaftNode) (prev prev_term : ℕ) (es : List LogEntry) (leader_commit : ℕ)
    (w : IsWellFormed s) where
  pub store_entries-gap :
      s.last_included_index + length s.log ≤ prev
      → store_entries s prev prev_term es leader_commit ≡ some (append_reply s false 0)
  unfolding store_entries
  store_entries-gap h =
      ground (arith, last_log_index-eq s w, Anchored-length s.last_included_term s.log w.anchored)

  pub store_entries-conflict :
      {t : ℕ}
      → get_log_term s prev ≡ some t
      → t ≢ prev_term
      → store_entries s prev prev_term es leader_commit ≡ some (append_reply s false 0)
  unfolding store_entries
  store_entries-conflict h ne = ground (arith, last_log_index-eq s w)

  pub store_entries-put :
      {after : List LogEntry}
      → prev < s.last_included_index + length s.log
      → get_log_term s prev ≡ some prev_term
      → put_entries s (suc prev) es ≡ some (with_log s after)
      → prev + length es < 2 ^ 63
      → store_entries s prev prev_term es leader_commit
        ≡ some (
            append_reply
              (advance_commit (with_log s after) leader_commit (prev + length es))
              true
              (prev + length es))
  unfolding store_entries
  store_entries-put lt t p r =
      let next : u64 (prev + 1) ≡ suc prev = omega arith in
      let last : u64 (prev + length es) ≡ prev + length es = omega arith in
      rw next (ground (arith, last_log_index-eq s w))

-- How the part behind the consistency check ends.
pub data Stored (s : RaftNode) (prev : ℕ) (es : List LogEntry) (lc : ℕ)
    (r : Option (RaftNode × AppendEntriesReply)) : Type 0 where
  refused : r ≡ some (append_reply s false 0) → Stored s prev es lc r
  stored :
      (after : List LogEntry)
      → IsPutAll s (suc prev) es after
      → r
        ≡ some (
            append_reply
              (advance_commit (with_log s after) lc (prev + length es))
              true
              (prev + length es))
      → Stored s prev es lc r

store_entries-Stored :
    (s : RaftNode) (prev prev_term : ℕ) (es : List LogEntry) (lc : ℕ)
    → IsWellFormed s
    → s.last_included_index ≤ prev
    → prev + length es < 2 ^ 63
    → Indexed (suc prev) es
    → Stored s prev es lc (store_entries s prev prev_term es lc)
store_entries-Stored s prev prev_term es lc w lo r x =
    elim (dec_lt prev (s.last_included_index + length s.log)) [
      | no far ↦ refused (store_entries-gap s prev prev_term es lc w (omega arith))
      | yes near ↦
          let (t, p) = get_log_term_total s prev w (omega arith) in
          elim (ℕ_discrete t prev_term) [
            | no ne ↦ refused (store_entries-conflict s prev prev_term es lc w p ne)
            | yes same ↦
                let (after, q, a) =
                  put_entries-IsPutAll es s (suc prev) w (omega arith) (omega arith) (omega arith)
                    x in
                stored after a
                  (store_entries-put s prev prev_term es lc w near (p ∙ ap some same) q r)
          ]
    ]

-- Some of the request lies behind the snapshot, or it begins there.
abbrev pub IsBehind : RaftNode → AppendEntriesArgs → Type 0
IsBehind s args =
    (s.last_included_index ≤ args.prev_log_index)
    ⊎ (s.last_included_index < args.prev_log_index + length args.entries)

-- How `HandleAppendEntries` ends on a well-formed node.
pub data Outcome (s : RaftNode) (args : AppendEntriesArgs) (now : ℕ)
    (r : Option (RaftNode × AppendEntriesReply)) : Type 0 where
  stale : args.term < s.current_term → r ≡ some (append_reply s false 0) → Outcome s args now r
  compacted :
      s.current_term ≤ args.term
      → args.prev_log_index < s.last_included_index
      → fresh s args ≡ []
      → args.prev_log_index + length args.entries ≤ s.last_included_index
      → r ≡ some (append_reply (followed s args now) true s.last_included_index)
      → Outcome s args now r
  checked :
      s.current_term ≤ args.term
      → IsBehind s args
      → Stored (followed s args now) (start s args) (fresh s args) args.leader_commit r
      → Outcome s args now r

module _ (s : RaftNode) (args : AppendEntriesArgs) (now : ℕ) where
  pub handle_append_entries-stale :
      args.term < s.current_term → handle_append_entries s args now ≡ some (append_reply s false 0)
  unfolding handle_append_entries accept_entries
  handle_append_entries-stale h = ground arith

  pub handle_append_entries-compacted :
      s.current_term ≤ args.term
      → args.prev_log_index < s.last_included_index
      → length args.entries ≤ s.last_included_index - args.prev_log_index
      → handle_append_entries s args now
        ≡ some (append_reply (followed s args now) true s.last_included_index)
  unfolding handle_append_entries accept_entries
  handle_append_entries-compacted h p l = ground arith

  pub handle_append_entries-trimmed :
      s.current_term ≤ args.term
      → args.prev_log_index < s.last_included_index
      → s.last_included_index - args.prev_log_index < length args.entries
      → handle_append_entries s args now
        ≡ store_entries
            (followed s args now)
            s.last_included_index
            s.last_included_term
            (fresh s args)
            args.leader_commit
  unfolding handle_append_entries accept_entries
  handle_append_entries-trimmed h p l = ground arith

  pub handle_append_entries-plain :
      s.current_term ≤ args.term
      → s.last_included_index ≤ args.prev_log_index
      → handle_append_entries s args now
        ≡ store_entries
            (followed s args now)
            args.prev_log_index
            args.prev_log_term
            args.entries
            args.leader_commit
  unfolding handle_append_entries accept_entries
  handle_append_entries-plain h p = ground arith

module _ (s : RaftNode) (args : AppendEntriesArgs) (now : ℕ) (w : IsWellFormed s)
    (q : IsRequest args) (h : s.current_term ≤ args.term) where
  trimmed-Stored :
      args.prev_log_index < s.last_included_index
      → s.last_included_index - args.prev_log_index < length args.entries
      → Stored
          (followed s args now)
          (start s args)
          (fresh s args)
          args.leader_commit
          (handle_append_entries s args now)
  trimmed-Stored p l =
      let gap = s.last_included_index - args.prev_log_index in
      let at : start s args ≡ s.last_included_index = omega arith in
      let first : suc args.prev_log_index + gap ≡ suc s.last_included_index = omega arith in
      rw (handle_append_entries-trimmed s args now h p l, at)
        (store_entries-Stored (followed s args now) _ _ (fresh s args) args.leader_commit
          (followed-IsWellFormed s args now w) (omega arith)
          (omega (arith, length-drop gap args.entries, q.in_range))
          (subst (λ k. Indexed k (fresh s args)) first
            (Indexed-drop _ gap args.entries q.indexed (omega arith))))

  plain-Stored :
      s.last_included_index ≤ args.prev_log_index
      → Stored
          (followed s args now)
          (start s args)
          (fresh s args)
          args.leader_commit
          (handle_append_entries s args now)
  plain-Stored p =
      let gap : s.last_included_index - args.prev_log_index ≡ 0 = omega arith in
      let at : start s args ≡ args.prev_log_index = omega arith in
      rw (handle_append_entries-plain s args now h p, at, gap)
        (store_entries-Stored (followed s args now) _ _ args.entries args.leader_commit
          (followed-IsWellFormed s args now w) p q.in_range q.indexed)

pub handle_append_entries-Outcome :
    (s : RaftNode) (args : AppendEntriesArgs) (now : ℕ)
    → IsWellFormed s
    → IsRequest args
    → Outcome s args now (handle_append_entries s args now)
handle_append_entries-Outcome s args now w q = elim (dec_lt args.term s.current_term) [
  | yes old ↦ stale old (handle_append_entries-stale s args now old)
  | no new ↦ elim (dec_lt args.prev_log_index s.last_included_index) [
    | yes behind ↦
        let gap = s.last_included_index - args.prev_log_index in
        elim (dec_lt gap (length args.entries)) [
          | yes some_left ↦
              checked (omega arith) (inr (omega arith))
                (trimmed-Stored s args now w q (omega arith) behind some_left)
          | no all_gone ↦
              compacted (omega arith) behind (drop_all gap args.entries (omega arith)) (omega arith)
                (handle_append_entries-compacted s args now (omega arith) behind (omega arith))
        ]
    | no ahead ↦
        checked (omega arith) (inl (omega arith))
          (plain-Stored s args now w q (omega arith) (omega arith))
  ]
]
