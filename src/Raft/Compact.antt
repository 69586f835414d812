-- ===== src/Raft/Compact.antt =====
-- Log compaction of raft/consensus.go: `TakeSnapshot` and `HandleInstallSnapshot`.
pub mod Take
pub mod Install
use mathlib.Core.Path.{subst}
use aegis_log.Common.{
  ℕ, zero, suc, ◌+◌, ◌-◌, ◌^◌, ◌≤◌, ◌<◌, ◌≡◌, refl, sym, ap, ◌∙◌, arith, List, [], ◌∷◌, length,
  get_elem?, drop, drop_all, length-drop, get_elem?-drop, ltb, if◌then◌else◌,
}
use aegis_log.Raft.Types.{LogEntry, RaftNode}
use aegis_log.Raft.Handlers.{anchor, compacted}
use aegis_log.Raft.Log.{Indexed, Anchored, IsWellFormed, Indexed-drop}

pub compacted-eq :
    (s : RaftNode) (index term : ℕ)
    → compacted s index term ≡ anchor index term ∷ drop (index - s.last_included_index + 1) s.log
compacted-eq s index term = ground (arith, drop_all (index - s.last_included_index + 1) s.log)

-- The log behind `index` under a new anchor, for an index of the log.
pub record IsCompacted (s : RaftNode) (index term : ℕ) (log : List LogEntry) : Type 0 where
  pub indexed : Indexed index log
  pub anchored : Anchored term log
  pub same_end : index + length log ≡ s.last_included_index + length s.log
  pub behind :
      (i : ℕ) → index < i → get_elem? log (i - index) ≡ get_elem? s.log (i - s.last_included_index)

pub compacted-IsCompacted :
    (s : RaftNode) (index term : ℕ)
    → IsWellFormed s
    → s.last_included_index ≤ index
    → index < s.last_included_index + length s.log
    → IsCompacted s index term (compacted s index term)
compacted-IsCompacted s index term w lo hi =
    let at = index - s.last_included_index in
    let rest = drop (at + 1) s.log in
    let first : s.last_included_index + (at + 1) ≡ suc index = omega arith in
    rw (compacted-eq s index term) (record {
      indexed = (
        refl,
        subst (λ k. Indexed k rest) first
            (Indexed-drop s.last_included_index (at + 1) s.log w.indexed (omega arith)),
      );
      anchored = refl;
      same_end = omega (arith, length-drop (at + 1) s.log);
      behind = λ i lt.
          let p : i - index ≡ suc (i - index - 1) = omega arith in
          let q : at + 1 + (i - index - 1) ≡ i - s.last_included_index = omega arith in
          rw p (get_elem?-drop (at + 1) s.log (i - index - 1) ∙ ap (get_elem? s.log) q);
    })
