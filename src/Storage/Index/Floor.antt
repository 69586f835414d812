-- ===== src/Storage/Index/Floor.antt =====
-- What `Lookup` of storage/index.go finds in an index whose entries are in order.
use aegis_log.Common.{
  ltb→lt, ℕ, zero, suc, ◌-◌, ◌≤◌, ◌<◌, ◌≡◌, ◌∙◌, refl, arith, Bool, true, false, some, List, ltb,
  inl, inr, length, get_elem?, lt→leb,
}
use mathlib.Core.Path.{subst}
use native.Mathlib.Decide.{dec_le, dec_lt}
use aegis_log.Storage.Index.{SparseIndex, entry_above, lookup_at, lookup, search_first}
use aegis_log.Storage.Index.Search.{IsCut, search_first-IsCut}
use aegis_log.Storage.Index.Content.{
  Entry, Holds, rel_at, pos_at, above_at, entry_exists, entry_bound,
}

-- The numbers of entries in order: relative offsets never fall.
abbrev pub IsSorted : List Entry → Type 0
IsSorted es =
    (i j r p r' p' : ℕ)
    → i ≤ j
    → get_elem? es i ≡ some (r, p)
    → get_elem? es j ≡ some (r', p')
    → r ≤ r'

-- What a lookup answers: the position of the last entry at or before the target, or that there is none.
pub data IsFloor (es : List Entry) (target : ℕ) : ℕ × Bool → Type 0 where
  nothing : ((i r p : ℕ) → get_elem? es i ≡ some (r, p) → target < r) → IsFloor es target (0, false)
  found :
      (k r p : ℕ)
      → get_elem? es k ≡ some (r, p)
      → r ≤ target
      → ((i r' p' : ℕ) → get_elem? es i ≡ some (r', p') → r' ≤ target → i ≤ k)
      → IsFloor es target (p, true)

module _ (idx : SparseIndex) (es : List Entry) (rest : List ℕ) (held : Holds idx es rest) where
  -- No entry is at or before the target when the first entry is behind it.
  lookup_at-none :
      (target r p : ℕ)
      → get_elem? es 0 ≡ some (r, p)
      → target < r
      → IsSorted es
      → (a : ℕ × Bool) × (lookup_at idx target 0 ≡ some a) × IsFloor es target a
  unfolding lookup_at
  lookup_at-none target r p e lt sorted = (
    (0, false),
    rw (rel_at idx es rest held 0 r p e, lt→leb r target lt) refl,
    nothing (λ i r' p' e'. omega (arith, sorted 0 i r p r' p' (omega arith) e e')),
  )

  lookup_at-found :
      (target k r p : ℕ)
      → get_elem? es k ≡ some (r, p)
      → r ≤ target
      → ((i r' p' : ℕ) → get_elem? es i ≡ some (r', p') → r' ≤ target → i ≤ k)
      → (a : ℕ × Bool) × (lookup_at idx target (suc k) ≡ some a) × IsFloor es target a
  unfolding lookup_at
  lookup_at-found target k r p e le last =
      ((p, true), ground (arith, pos_at idx es rest held k r p e), found k r p e le last)

  is_above :
      (target i r p : ℕ)
      → get_elem? es i ≡ some (r, p)
      → entry_above idx target i ≡ some true
      → target < r
  is_above target i r p e above =
      ltb→lt target r (cc (above_at idx es rest held target i r p e, above))

  pub is_below :
      (target i r p : ℕ)
      → get_elem? es i ≡ some (r, p)
      → entry_above idx target i ≡ some false
      → r ≤ target
  is_below target i r p e below =
      let eq : ltb target r ≡ false = cc (above_at idx es rest held target i r p e, below) in
      ground arith

  -- The entries behind the cut are behind the target.
  cut_last :
      (target k : ℕ)
      → IsCut (entry_above idx target) 0 (length es) (suc k)
      → IsSorted es
      → (i r p : ℕ) → get_elem? es i ≡ some (r, p)
      → r ≤ target
      → i ≤ k
  cut_last target k c sorted i r p e le = elim (dec_le i k) [
    | yes h ↦ h
    | no h ↦ elim c.passes_at [
      | inl end ↦ absurd (omega (arith, entry_bound es i e))
      | inr above ↦
          let (r', p', e') = entry_exists es (suc k) (omega (arith, entry_bound es i e)) in
          absurd (
            omega (
              arith,
              sorted (suc k) i r' p' r p (omega arith) e' e,
              is_above target (suc k) r' p' e' above,
            ))
    ]
  ]

  lookup_at-cut :
      (target k : ℕ)
      → IsCut (entry_above idx target) 0 (length es) k
      → IsSorted es
      → 0 < length es
      → (a : ℕ × Bool) × (lookup_at idx target k ≡ some a) × IsFloor es target a
  lookup_at-cut target zero c sorted some_entry =
      let (r, p, e) = entry_exists es 0 some_entry in
      elim c.passes_at [
        | inl end ↦ absurd (omega arith)
        | inr above ↦ lookup_at-none target r p e (is_above target 0 r p e above) sorted
      ]
  lookup_at-cut target (suc k) c sorted some_entry =
      let (r, p, e) = entry_exists es k (omega (arith, c.high)) in
      elim c.fails_before [
        | inl start ↦ absurd (omega arith)
        | inr below ↦
            let p' : suc k - 1 ≡ k = omega arith in
            let at_k = subst (λ m. entry_above idx target m ≡ some false) p' below in
            lookup_at-found target k r p e (is_below target k r p e at_k)
              (cut_last target k c sorted)
      ]

  pub lookup-search :
      (target k : ℕ) (a : ℕ × Bool)
      → 0 < length es
      → search_first (length es) (entry_above idx target) ≡ some k
      → lookup_at idx target k ≡ some a
      → lookup idx target ≡ some a
  unfolding lookup
  lookup-search target k a h e f =
      let c : idx.entry_count ≡ length es = held.count in rw c (ground (arith, e, f))

  pub lookup-empty : (target : ℕ) → length es ≡ 0 → lookup idx target ≡ some (0, false)
  unfolding lookup
  lookup-empty target h = let c : idx.entry_count ≡ 0 = held.count ∙ h in rw c refl

  -- In an index whose entries are in order, the search ends and `Lookup` answers with the position of the last entry at or before the target, or that there is none.
  pub lookup-IsFloor :
      (target : ℕ)
      → IsSorted es
      → (a : ℕ × Bool) × (lookup idx target ≡ some a) × IsFloor es target a
  lookup-IsFloor target sorted = elim (dec_lt 0 (length es)) [
    | no h ↦ (
      (0, false),
      lookup-empty target (omega arith),
      nothing (λ i r p e. absurd (omega (arith, entry_bound es i e))),
    )
    | yes h ↦
        let (k, found_at, c) = search_first-IsCut (length es) (entry_above idx target) (λ i lt.
          let (r, p, e) = entry_exists es i lt in
          (ltb target r, above_at idx es rest held target i r p e)) in
        let (a, e, floor) = lookup_at-cut target k c sorted h in
        (a, lookup-search target k a h found_at e, floor)
  ]
