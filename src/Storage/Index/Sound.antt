-- ===== src/Storage/Index/Sound.antt =====
-- What `Lookup` of storage/index.go answers whatever the order of the entries is.
use native.Mathlib.Decide.{dec_lt}
use mathlib.Core.Path.{subst}
use aegis_log.Common.{
  ℕ, zero, suc, ◌-◌, ◌≤◌, ◌<◌, ◌≡◌, refl, arith, Bool, true, false, some, List, ltb, leb, inl, inr,
  Bool-cases, length, get_elem?, leb→le,
}
use aegis_log.Storage.Index.{SparseIndex, entry_above, lookup_at, lookup}
use aegis_log.Storage.Index.Content.{Entry, Holds, rel_at, pos_at, above_at, entry_exists}
use aegis_log.Storage.Index.Floor.{is_below, lookup-search, lookup-empty}
use aegis_log.Storage.Index.Search.{IsCut, search_first-IsCut}

-- A property of all entries.
abbrev pub AllEntries : (ℕ → ℕ → Type 0) → List Entry → Type 0
AllEntries P es = (i rel pos : ℕ) → get_elem? es i ≡ some (rel, pos) → P rel pos

module _ (idx : SparseIndex) (es : List Entry) (rest : List ℕ) (held : Holds idx es rest)
    (P : ℕ → ℕ → Type 0) (start : P 0 0) (sound : AllEntries P es) where
  -- The answer is the position of an entry at or before the target, or the start.
  abbrev Answers : ℕ → ℕ × Bool → Type 0
  Answers target a = (rel : ℕ) × (rel ≤ target) × P rel a.0

  lookup_at-first :
      (target r p : ℕ)
      → get_elem? es 0 ≡ some (r, p)
      → (a : ℕ × Bool) × (lookup_at idx target 0 ≡ some a) × Answers target a
  unfolding lookup_at
  lookup_at-first target r p e = elim (Bool-cases (leb r target)) [
    | inl at ↦ (
      (p, true),
      rw (rel_at idx es rest held 0 r p e, at, pos_at idx es rest held 0 r p e) refl,
      (r, leb→le r target at, sound 0 r p e),
    )
    | inr above ↦
        ((0, false), rw (rel_at idx es rest held 0 r p e, above) refl, (0, omega arith, start))
  ]

  lookup_at-later :
      (target k r p : ℕ)
      → get_elem? es k ≡ some (r, p)
      → r ≤ target
      → (a : ℕ × Bool) × (lookup_at idx target (suc k) ≡ some a) × Answers target a
  unfolding lookup_at
  lookup_at-later target k r p e le =
      ((p, true), ground (arith, pos_at idx es rest held k r p e), (r, le, sound k r p e))

  lookup_at-Answers :
      (target k : ℕ)
      → IsCut (entry_above idx target) 0 (length es) k
      → 0 < length es
      → (a : ℕ × Bool) × (lookup_at idx target k ≡ some a) × Answers target a
  lookup_at-Answers target zero c some_entry =
      let (r, p, e) = entry_exists es 0 some_entry in lookup_at-first target r p e
  lookup_at-Answers target (suc k) c some_entry =
      let (r, p, e) = entry_exists es k (omega (arith, c.high)) in
      elim c.fails_before [
        | inl first ↦ absurd (omega arith)
        | inr below ↦
            let p' : suc k - 1 ≡ k = omega arith in
            let at_k = subst (λ m. entry_above idx target m ≡ some false) p' below in
            lookup_at-later target k r p e (is_below idx es rest held target k r p e at_k)
      ]

  -- `Lookup` ends without a fault on any entries, in order or not, and what holds of every entry and of the start holds of its answer, for a relative offset that is at most the target.
  pub lookup-Answers :
      (target : ℕ)
      → (a : ℕ × Bool) × (lookup idx target ≡ some a) × ((rel : ℕ) × (rel ≤ target) × P rel a.0)
  lookup-Answers target = elim (dec_lt 0 (length es)) [
    | no h ↦
        ((0, false), lookup-empty idx es rest held target (omega arith), (0, omega arith, start))
    | yes h ↦
        let (k, found_at, c) = search_first-IsCut (length es) (entry_above idx target) (λ i lt.
          let (r, p, e) = entry_exists es i lt in
          (ltb target r, above_at idx es rest held target i r p e)) in
        let (a, e, answer) = lookup_at-Answers target k c h in
        (a, lookup-search idx es rest held target k a h found_at e, answer)
  ]
