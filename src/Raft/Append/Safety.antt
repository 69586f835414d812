-- ===== src/Raft/Append/Safety.antt =====
-- What a follower has stored and answered after `HandleAppendEntries`, raft/consensus.go.
use native.Mathlib.Decide.{dec_lt}
use aegis_log.Common.{
  ℕ, suc, ◌+◌, ◌-◌, ◌^◌, ◌≤◌, ◌<◌, ◌≡◌, refl, sym, ◌∙◌, arith, Bool, true, false, Option, some,
  List, length, get_elem?, min, ◌⊎◌, inl, inr,
}
use aegis_log.Raft.Types.{LogEntry, AppendEntriesArgs, AppendEntriesReply, RaftNode}
use aegis_log.Raft.Node.{notify}
use aegis_log.Raft.Handlers.{advance_commit, append_reply, handle_append_entries}
use aegis_log.Raft.Log.{IsWellFormed, Anchored-length}
use mathlib.Core.Bool.{false≢true}
use aegis_log.Raft.Append.Put.{with_log, Kept}
use aegis_log.Raft.Append.Entries.{IsPutAll, AllStored, Agrees, with_log-IsWellFormed}
use aegis_log.Raft.Append.Outcome.{
  IsRequest, Stored, Outcome, followed, start, fresh, last_new, handle_append_entries-Outcome,
  refused, stored, stale, compacted, checked, IsBehind, followed-IsWellFormed, last_new-lt,
}

advance_commit-IsWellFormed :
    (s : RaftNode) (lc last : ℕ)
    → IsWellFormed s
    → s.last_included_index ≤ last
    → IsWellFormed (advance_commit s lc last)
unfolding advance_commit notify
advance_commit-IsWellFormed s lc last w h = ground arith

put-IsWellFormed :
    (s : RaftNode) (idx : ℕ) (es after : List LogEntry)
    → IsWellFormed s
    → s.last_included_index < idx
    → idx + length es ≤ 2 ^ 63
    → IsPutAll s idx es after
    → IsWellFormed (with_log s after)
put-IsWellFormed s idx es after w lo r a =
    with_log-IsWellFormed s idx after w lo a.extends (omega (arith, a.bounded, w.in_range))

abbrev Ends : Option (RaftNode × AppendEntriesReply) → Type 0
Ends o = (s' : RaftNode) × (r : AppendEntriesReply) × (o ≡ some (s', r)) × IsWellFormed s'

Stored-Ends :
    {s : RaftNode} {prev : ℕ} {es : List LogEntry} {lc : ℕ}
    {o : Option (RaftNode × AppendEntriesReply)}
    → IsWellFormed s
    → s.last_included_index ≤ prev
    → prev + length es < 2 ^ 63
    → Stored s prev es lc o
    → Ends o
Stored-Ends w lo r (refused e) = (_, _, e, w)
Stored-Ends w lo r (stored after a e) = (
  _,
  _,
  e,
  advance_commit-IsWellFormed _ _ _ (put-IsWellFormed _ _ _ after w (omega arith) (omega arith) a)
      (omega arith),
)

Outcome-Ends :
    {s : RaftNode} {args : AppendEntriesArgs} {now : ℕ} {o : Option (RaftNode × AppendEntriesReply)}
    → IsWellFormed s
    → last_new s args < 2 ^ 63
    → Outcome s args now o
    → Ends o
Outcome-Ends w r (stale h e) = (_, _, e, w)
Outcome-Ends {s} {args} {now} w r (compacted h p f l e) =
    (_, _, e, followed-IsWellFormed s args now w)
Outcome-Ends {s} {args} {now} w r (checked h b st) =
    Stored-Ends (followed-IsWellFormed s args now w) (omega arith) r st

-- On a well-formed node and a request with indexed entries below 2 ^ 63 the handler returns without a fault, and leaves a well-formed node.
pub handle_append_entries-IsWellFormed :
    (s : RaftNode) (args : AppendEntriesArgs) (now : ℕ)
    → IsWellFormed s
    → IsRequest args
    → (s' : RaftNode) × (r : AppendEntriesReply) × (handle_append_entries s args now ≡ some (s', r))
      × IsWellFormed s'
handle_append_entries-IsWellFormed s args now w q =
    Outcome-Ends w (last_new-lt s args w q) (handle_append_entries-Outcome s args now w q)

-- What an acknowledgement stands for: the entries that the request brought, the log before them, and the index in the reply.
pub record IsAppended (s : RaftNode) (args : AppendEntriesArgs) (log : List LogEntry) (reached : ℕ)
    : Type 0 where
  pub stored : AllStored s.last_included_index (suc (start s args)) (fresh s args) log
  pub before :
      (j : ℕ) → j < suc (start s args) - s.last_included_index → get_elem? log j ≡ get_elem? s.log j
  pub reached_is : reached ≡ last_new s args
  pub keeps :
      Agrees s.last_included_index s.log (suc (start s args)) (fresh s args) → Kept s.log log
  pub in_log : last_new s args < s.last_included_index + length log

log-advance_commit : (s : RaftNode) (lc last : ℕ) → (advance_commit s lc last).log ≡ s.log
unfolding advance_commit notify
log-advance_commit s lc last = ground arith

success_of :
    (s s' : RaftNode) (b : Bool) (at : ℕ) (r : AppendEntriesReply)
    → some (append_reply s b at) ≡ some (s', r)
    → (s'.log ≡ s.log) × (r.success ≡ b) × (r.match_index ≡ at)
success_of s s' b at r e = ground arith

Stored-IsAppended :
    {s : RaftNode} {args : AppendEntriesArgs} {now : ℕ} {o : Option (RaftNode × AppendEntriesReply)}
    {s' : RaftNode} {r : AppendEntriesReply}
    → Stored (followed s args now) (start s args) (fresh s args) args.leader_commit o
    → o ≡ some (s', r)
    → r.success ≡ true
    → IsAppended s args s'.log r.match_index
Stored-IsAppended {s} {args} {now} {o} {s'} {r} (refused e) h t =
    absurd (false≢true (sym (success_of _ s' false 0 r (sym e ∙ h)).1 ∙ t))
Stored-IsAppended {s} {args} {now} {o} {s'} {r} (stored after a e) h t =
    let (l, _, m) = success_of _ s' true _ r (sym e ∙ h) in
    let l' : s'.log ≡ after = l ∙ log-advance_commit _ args.leader_commit (last_new s args) in
    rw l' (record {
      stored = a.stored;
      before = a.extends.below;
      reached_is = m;
      keeps = a.grows;
      in_log = omega (arith, a.reaches);
    })

Outcome-IsAppended :
    {s : RaftNode} {args : AppendEntriesArgs} {now : ℕ} {o : Option (RaftNode × AppendEntriesReply)}
    {s' : RaftNode} {r : AppendEntriesReply}
    → IsWellFormed s
    → Outcome s args now o
    → o ≡ some (s', r)
    → r.success ≡ true
    → IsAppended s args s'.log r.match_index
Outcome-IsAppended {s} {args} {now} {o} {s'} {r} w (stale p e) h t =
    absurd (false≢true (sym (success_of _ s' false 0 r (sym e ∙ h)).1 ∙ t))
Outcome-IsAppended {s} {args} {now} {o} {s'} {r} w (compacted _ p f l e) h t =
    let (l, _, m) = success_of _ s' true _ r (sym e ∙ h) in
    rw l (record {
      stored = rw f tt;
      before = λ j lt. refl;
      reached_is = rw f (omega arith);
      keeps = λ _ j lt. refl;
      in_log = rw f (omega (arith, Anchored-length s.last_included_term s.log w.anchored));
    })
Outcome-IsAppended w (checked _ b st) h t = Stored-IsAppended st h t

-- When the handler answers success on a well-formed node to a request with indexed entries below 2 ^ 63, the log holds the term of every entry of the request behind the snapshot at that entry's index, is unchanged up to the entry before them, and `match_index` is the last of these indices; and where the request agrees with the log in every term, no entry is removed or replaced.
pub append_stores :
    (s : RaftNode) (args : AppendEntriesArgs) (now : ℕ) {s' : RaftNode} {r : AppendEntriesReply}
    → IsWellFormed s
    → IsRequest args
    → handle_append_entries s args now ≡ some (s', r)
    → r.success ≡ true
    → IsAppended s args s'.log r.match_index
append_stores s args now w q h t =
    Outcome-IsAppended w (handle_append_entries-Outcome s args now w q) h t

-- What a reply did to the commit index.
pub data CommitChange (s s' : RaftNode) (args : AppendEntriesArgs) (r : AppendEntriesReply)
    : Type 0 where
  refuses : r.success ≡ false → s'.commit_index ≡ s.commit_index → CommitChange s s' args r
  covered :
      r.success ≡ true
      → args.prev_log_index < s.last_included_index
      → args.prev_log_index + length args.entries ≤ s.last_included_index
      → s'.commit_index ≡ s.commit_index
      → CommitChange s s' args r
  reached :
      r.success ≡ true
      → args.leader_commit ≤ s.commit_index
      → s'.commit_index ≡ s.commit_index
      → CommitChange s s' args r
  moved :
      r.success ≡ true
      → IsBehind s args
      → s.commit_index < args.leader_commit
      → s'.commit_index ≡ min args.leader_commit r.match_index
      → CommitChange s s' args r

replied_commit :
    (s s' : RaftNode) (b : Bool) (at : ℕ) (r : AppendEntriesReply)
    → some (append_reply s b at) ≡ some (s', r)
    → (r.success ≡ b) × (s'.commit_index ≡ s.commit_index)
replied_commit s s' b at r e = ground arith

advanced_commit :
    (s s' : RaftNode) (lc last : ℕ) (r : AppendEntriesReply)
    → some (append_reply (advance_commit s lc last) true last) ≡ some (s', r)
    → ((lc ≤ s.commit_index) × (s'.commit_index ≡ s.commit_index))
      ⊎ ((s.commit_index < lc) × (s'.commit_index ≡ min lc r.match_index))
unfolding advance_commit notify
advanced_commit s s' lc last r e = elim (dec_lt s.commit_index lc) [
  | yes more ↦ inr (more, ground arith)
  | no less ↦ inl (omega arith, ground arith)
]

Stored-CommitChange :
    {s : RaftNode} {args : AppendEntriesArgs} {now : ℕ} {o : Option (RaftNode × AppendEntriesReply)}
    {s' : RaftNode} {r : AppendEntriesReply}
    → IsBehind s args
    → Stored (followed s args now) (start s args) (fresh s args) args.leader_commit o
    → o ≡ some (s', r)
    → CommitChange s s' args r
Stored-CommitChange {s} {args} {now} {o} {s'} {r} b (refused e) h =
    let (f, c) = replied_commit (followed s args now) s' false 0 r (sym e ∙ h) in refuses f c
Stored-CommitChange {s} {args} {now} {o} {s'} {r} b (stored after a e) h =
    let node = with_log (followed s args now) after in
    let (t, _) =
      replied_commit (advance_commit node args.leader_commit (last_new s args)) s' true _ r
        (sym e ∙ h) in
    elim (advanced_commit node s' args.leader_commit (last_new s args) r (sym e ∙ h)) [
      | inl (low, c) ↦ reached t low c
      | inr (more, c) ↦ moved t b more c
    ]

Outcome-CommitChange :
    {s : RaftNode} {args : AppendEntriesArgs} {now : ℕ} {o : Option (RaftNode × AppendEntriesReply)}
    {s' : RaftNode} {r : AppendEntriesReply}
    → Outcome s args now o
    → o ≡ some (s', r)
    → CommitChange s s' args r
Outcome-CommitChange {s} {args} {now} {o} {s'} {r} (stale p e) h =
    let (f, c) = replied_commit s s' false 0 r (sym e ∙ h) in refuses f c
Outcome-CommitChange {s} {args} {now} {o} {s'} {r} (compacted _ p f l e) h =
    let (t, c) = replied_commit (followed s args now) s' true _ r (sym e ∙ h) in covered t p l c
Outcome-CommitChange (checked _ b st) h = Stored-CommitChange b st h

-- The commit index after a request with indexed entries below 2 ^ 63 to a well-formed node is the one before it when the request is refused, when it lies wholly inside the snapshot, or when the leader's commit index is not higher; in every other case it is the lower of the leader's commit index and `match_index`.
pub append_commits :
    (s : RaftNode) (args : AppendEntriesArgs) (now : ℕ) {s' : RaftNode} {r : AppendEntriesReply}
    → IsWellFormed s
    → IsRequest args
    → handle_append_entries s args now ≡ some (s', r)
    → CommitChange s s' args r
append_commits s args now w q h =
    Outcome-CommitChange (handle_append_entries-Outcome s args now w q) h
