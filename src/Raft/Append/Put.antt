-- ===== src/Raft/Append/Put.antt =====
-- The loop over `args.Entries` in `HandleAppendEntries`, raft/consensus.go.
use mathlib.Core.Option.{some-injective}
use native.Mathlib.Decide.{dec_lt, ℕ_discrete}
use aegis_log.Common.{
  ℕ, suc, ◌+◌, ◌-◌, ◌≤◌, ◌<◌, ◌≡◌, refl, sym, ap, arith, some, List, [], ◌∷◌, ◌++◌, length,
  get_elem?, take, length-append, length-take, get_elem?-append_left, get_elem?-append_at,
  get_elem?-take, take_all, ◌∙◌, ◌≢◌, inl, inr, ◌⊎◌, sub64,
}
use aegis_log.Raft.Types.{LogEntry, RaftNode}
use aegis_log.Raft.Node.{term_of}
use aegis_log.Raft.Handlers.{put_entry}
use aegis_log.Raft.Log.{
  Indexed, Anchored, IsWellFormed, Indexed-append, Indexed-take, get_elem?_index, last_log_index-eq,
  get_log_term-eq, Anchored-length,
}

-- The node with another log.
abbrev pub with_log : RaftNode → List LogEntry → RaftNode
with_log s l = record s { log = l }

-- `log`, which begins at `base`, holds an entry of term `t` at `idx`.
abbrev pub HasTerm : ℕ → List LogEntry → ℕ → ℕ → Type 0
HasTerm base log idx t = term_of (get_elem? log (idx - base)) ≡ some t

-- The log `after` differs from `before` at positions from `at` on only, and is well formed.
pub record Extends (s : RaftNode) (at : ℕ) (after : List LogEntry) : Type 0 where
  pub indexed : Indexed s.last_included_index after
  pub below : (j : ℕ) → j < at → get_elem? after j ≡ get_elem? s.log j

append-Extends :
    (s : RaftNode) (e : LogEntry) (at : ℕ)
    → IsWellFormed s
    → at ≤ length s.log
    → e.index ≡ s.last_included_index + at
    → Extends s at (take at s.log ++ (e ∷ []))
append-Extends s e at w h q =
    let n : length (take at s.log) ≡ at = omega (arith, length-take at s.log) in
    record {
      indexed =
          Indexed-append _ (take at s.log) (e ∷ []) (Indexed-take _ at s.log w.indexed)
            (omega (arith, n), tt);
      below = λ j lt.
          get_elem?-append_left (take at s.log) (e ∷ []) j (omega (arith, n))
          ∙ get_elem?-take at s.log j lt;
    }

pub Anchored-ext :
    (t : ℕ) (before after : List LogEntry)
    → Anchored t before
    → get_elem? after 0 ≡ get_elem? before 0
    → Anchored t after
Anchored-ext t [] after h p = absurd h
Anchored-ext t (b ∷ bs) [] h p = cc
Anchored-ext t (b ∷ bs) (a ∷ as') h p = ground arith

-- Every entry of `before` is still there.
abbrev pub Kept : List LogEntry → List LogEntry → Type 0
Kept before after = (j : ℕ) → j < length before → get_elem? after j ≡ get_elem? before j

-- Where the log holds an entry at `idx`, it has the term `t`.
abbrev pub AgreesAt : ℕ → List LogEntry → ℕ → ℕ → Type 0
AgreesAt base log idx t = idx < base + length log → HasTerm base log idx t

-- A new log for one entry put at `idx`.
pub record IsPut (s : RaftNode) (idx : ℕ) (e : LogEntry) (after : List LogEntry) : Type 0 where
  pub extends : Extends s (idx - s.last_included_index) after
  pub reaches : idx < s.last_included_index + length after
  pub bounded : (length after ≤ length s.log) ⊎ (s.last_included_index + length after ≡ idx + 1)
  pub stored : HasTerm s.last_included_index after idx e.term
  pub grows : AgreesAt s.last_included_index s.log idx e.term → Kept s.log after

append-IsPut :
    (s : RaftNode) (e : LogEntry) (idx : ℕ)
    → IsWellFormed s
    → s.last_included_index < idx
    → idx ≤ s.last_included_index + length s.log
    → e.index ≡ idx
    → (AgreesAt s.last_included_index s.log idx e.term → length s.log ≤ idx - s.last_included_index)
    → IsPut s idx e (take (idx - s.last_included_index) s.log ++ (e ∷ []))
unfolding term_of
append-IsPut s e idx w lo hi q full =
    let at = idx - s.last_included_index in
    let n : length (take at s.log) ≡ at = omega (arith, length-take at s.log) in
    let m : length (take at s.log ++ (e ∷ [])) ≡ suc at =
      omega (arith, n, length-append (take at s.log) (e ∷ [])) in
    record {
      extends = append-Extends s e at w (omega arith) (omega arith);
      reaches = omega (arith, m);
      bounded = inr (omega (arith, m));
      stored = rw (get_elem?-append_at (take at s.log) [] e at (omega (arith, n))) refl;
      grows = λ agree j lt.
          (append-Extends s e at w (omega arith) (omega arith)).below j (omega (arith, full agree));
    }

keep-IsPut :
    (s : RaftNode) (e : LogEntry) (idx : ℕ)
    → IsWellFormed s
    → idx < s.last_included_index + length s.log
    → HasTerm s.last_included_index s.log idx e.term
    → IsPut s idx e s.log
keep-IsPut s e idx w hi h = record {
  extends = record { indexed = w.indexed; below = λ j lt. refl };
  reaches = hi;
  bounded = inl (omega arith);
  stored = h;
  grows = λ _ j lt. refl;
}

put_entry-keep :
    (s : RaftNode) (e : LogEntry) (idx : ℕ)
    → IsWellFormed s
    → s.last_included_index < idx
    → idx < s.last_included_index + length s.log
    → HasTerm s.last_included_index s.log idx e.term
    → put_entry s idx e ≡ some s
unfolding put_entry
put_entry-keep s e idx w lo hi h = ground (arith, last_log_index-eq s w, get_log_term-eq s idx w)

put_entry-cut :
    (s : RaftNode) (e : LogEntry) (idx : ℕ) {t : ℕ}
    → IsWellFormed s
    → s.last_included_index < idx
    → idx < s.last_included_index + length s.log
    → HasTerm s.last_included_index s.log idx t
    → t ≢ e.term
    → put_entry s idx e ≡ some (with_log s (take (idx - s.last_included_index) s.log ++ (e ∷ [])))
unfolding put_entry
put_entry-cut s e idx w lo hi h ne =
    let same : sub64 idx s.last_included_index ≡ idx - s.last_included_index =
      omega (arith, w.in_range) in
    rw (← same) (ground (arith, last_log_index-eq s w, get_log_term-eq s idx w))

put_entry-append :
    (s : RaftNode) (e : LogEntry) (idx : ℕ)
    → IsWellFormed s
    → idx ≡ s.last_included_index + length s.log
    → put_entry s idx e ≡ some (with_log s (take (idx - s.last_included_index) s.log ++ (e ∷ [])))
unfolding put_entry
put_entry-append s e idx w q =
    rw (take_all (idx - s.last_included_index) s.log (omega arith))
      (ground (arith, last_log_index-eq s w, Anchored-length s.last_included_term s.log w.anchored))

pub put_entry-IsPut :
    (s : RaftNode) (e : LogEntry) (idx : ℕ)
    → IsWellFormed s
    → s.last_included_index < idx
    → idx ≤ s.last_included_index + length s.log
    → e.index ≡ idx
    → (after : List LogEntry) × (put_entry s idx e ≡ some (with_log s after)) × IsPut s idx e after
unfolding term_of
put_entry-IsPut s e idx w lo hi q =
    let grown = take (idx - s.last_included_index) s.log ++ (e ∷ []) in
    elim (dec_lt idx (s.last_included_index + length s.log)) [
      | yes inside ↦
          let (old, p, _) =
            get_elem?_index s.last_included_index (idx - s.last_included_index) s.log w.indexed
              (omega arith) in
          elim (ℕ_discrete old.term e.term) [
            | yes same ↦
                let h : HasTerm s.last_included_index s.log idx e.term = rw p (ap some same) in
                (s.log, put_entry-keep s e idx w lo inside h, keep-IsPut s e idx w inside h)
            | no ne ↦ (
              grown,
              put_entry-cut s e idx w lo inside (rw p refl) ne,
              append-IsPut s e idx w lo hi q
                  (λ agree. absurd (ne (some-injective _ _ (sym (ap term_of p) ∙ agree inside)))),
            )
          ]
      | no outside ↦ (
        grown,
        put_entry-append s e idx w (omega arith),
        append-IsPut s e idx w lo hi q (λ agree. omega arith),
      )
    ]
