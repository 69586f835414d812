-- ===== src/Raft/Apply.antt =====
-- The applier and the proposals of raft/consensus.go.
use aegis_log.Common.{
  ℕ, zero, suc, ◌+◌, ◌-◌, ◌^◌, ◌≤◌, ◌<◌, ◌≡◌, refl, sym, ap, ◌∙◌, arith, Bool, some, none, List, [],
  ◌∷◌, ◌++◌, length, get_elem?, drop, drop-step, lt→ltb, take, u64, if◌then◌else◌,
}
use mathlib.Core.List.{append_assoc, append-nil}
use aegis_log.Raft.Types.{LogEntry, RaftNode}
use aegis_log.Raft.Election.{apply_one, apply_loop, apply_committed, handed_over}
use aegis_log.Raft.Log.{IsWellFormed, get_elem?_index}

-- What `OnCommit` gets of some entries: those with data, in order, if the callback is set.
unfoldable pub delivered : Bool → List LogEntry → List LogEntry
delivered set [] = []
delivered set (e ∷ es) = elim e.payload [
  | none ↦ delivered set es
  | some _ ↦ if set then e ∷ delivered set es else delivered set es
]

-- The `n` entries behind index `i`.
abbrev pub entries_from : RaftNode → ℕ → ℕ → List LogEntry
entries_from s i n = take n (drop (i + 1 - s.last_included_index) s.log)

delivered-nil : (set : Bool) → delivered set [] ≡ []
unfolding delivered
delivered-nil set = refl

delivered-cons :
    (set : Bool) (e : LogEntry) (es : List LogEntry)
    → delivered set (e ∷ es) ≡ delivered set (e ∷ []) ++ delivered set es
unfolding delivered
delivered-cons set e es = ground arith

-- One round, at an index of the log behind the anchor.
apply_one-eq :
    (s : RaftNode) (applied : ℕ) {e : LogEntry}
    → s.last_included_index + length s.log ≤ 2 ^ 63
    → s.last_included_index < applied
    → applied < s.last_included_index + length s.log
    → get_elem? s.log (applied - s.last_included_index) ≡ some e
    → apply_one s applied ≡ some (delivered s.cfg.on_commit (e ∷ []))
unfolding apply_one handed_over delivered
apply_one-eq s applied r lo hi p = ground arith

apply_loop-step :
    (n : ℕ) (s : RaftNode) (out one : List LogEntry)
    → s.last_applied < s.commit_index
    → apply_one s (u64 (s.last_applied + 1)) ≡ some one
    → apply_loop (suc n) s out
      ≡ apply_loop n (record s { last_applied = u64 (s.last_applied + 1) }) (out ++ one)
unfolding apply_loop
apply_loop-step n s out one lt p = ground (arith, lt→ltb s.last_applied s.commit_index lt)

apply_loop-stop : (s : RaftNode) (out : List LogEntry) → apply_loop zero s out ≡ some (s, out)
unfolding apply_loop
apply_loop-stop s out = refl

entries_from-step :
    (n : ℕ) (s : RaftNode) {e : LogEntry}
    → s.last_included_index ≤ s.last_applied
    → get_elem? s.log (s.last_applied + 1 - s.last_included_index) ≡ some e
    → entries_from s s.last_applied (suc n) ≡ e ∷ entries_from s (s.last_applied + 1) n
entries_from-step n s {e} lo p =
    let k : s.last_applied + 1 + 1 - s.last_included_index
        ≡ suc (s.last_applied + 1 - s.last_included_index) =
      omega arith in
    rw (k, drop-step _ s.log p) refl

apply_loop-eq :
    (n : ℕ) (s : RaftNode) (out : List LogEntry)
    → IsWellFormed s
    → s.last_applied + n ≡ s.commit_index
    → s.commit_index < s.last_included_index + length s.log
    → apply_loop n s out
      ≡ some (
        record s { last_applied = s.commit_index },
        out ++ delivered s.cfg.on_commit (entries_from s s.last_applied n),
      )
apply_loop-eq zero s out w e lt =
    let done : s.last_applied ≡ s.commit_index = omega arith in
    let nothing : out ≡ out ++ delivered s.cfg.on_commit [] =
      rw (delivered-nil s.cfg.on_commit) (sym (append-nil out)) in
    apply_loop-stop s out ∙ λ i. some (record s { last_applied = done i }, nothing i)
apply_loop-eq (suc n) s out w e lt =
    let next = s.last_applied + 1 in
    let at = next - s.last_included_index in
    let (x, p, _) = get_elem?_index s.last_included_index at s.log w.indexed (omega arith) in
    let wrap : u64 next ≡ next = omega (arith, w.in_range) in
    let one = delivered s.cfg.on_commit (x ∷ []) in
    let s' = record s { last_applied = next } in
    let w' : IsWellFormed s' = record {
      indexed = w.indexed;
      anchored = w.anchored;
      in_range = w.in_range;
      committed = w.committed;
      applied = omega (arith, w.applied);
    } in
    let rest = entries_from s next n in
    let more : (out ++ one) ++ delivered s.cfg.on_commit rest
        ≡ out ++ delivered s.cfg.on_commit (entries_from s s.last_applied (suc n)) =
      append_assoc out one _
      ∙ ap (λ l. out ++ l)
          (sym (
            ap (delivered s.cfg.on_commit) (entries_from-step n s w.applied p)
            ∙ delivered-cons s.cfg.on_commit x rest)) in
    apply_loop-step n s out one (omega arith)
      (rw wrap (apply_one-eq s next w.in_range (omega (arith, w.applied)) (omega arith) p))
    ∙ ap (λ k. apply_loop n (record s { last_applied = k }) (out ++ one)) wrap
    ∙ apply_loop-eq n s' (out ++ one) w' (omega arith) lt
    ∙ ap (λ l. some (record s { last_applied = s.commit_index }, l)) more

-- On a well-formed node whose commit index lies in its log and is not below what was applied, the applier ends without a fault, hands over every entry with data from the one behind `lastApplied` to the one at the commit index, in order and once, and has then applied up to the commit index.
pub apply_committed-eq :
    (s : RaftNode)
    → IsWellFormed s
    → s.last_applied ≤ s.commit_index
    → s.commit_index < s.last_included_index + length s.log
    → apply_committed s
      ≡ some (
        record s { last_applied = s.commit_index },
        delivered s.cfg.on_commit (entries_from s s.last_applied (s.commit_index - s.last_applied)),
      )
unfolding apply_committed
apply_committed-eq s w h lt =
    apply_loop-eq (s.commit_index - s.last_applied) s [] w (omega arith) lt
