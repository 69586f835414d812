-- ===== src/Storage/Segment/Fetch.antt =====
-- `ReadAt` of storage/wal_segment.go through the sparse index.
use mathlib.Core.List.{append_assoc}
use aegis_log.Common.{
  ℕ, ◌+◌, ◌-◌, ◌^◌, ◌≤◌, ◌<◌, ◌≡◌, ◌∙◌, refl, sym, ap, arith, Bool, some, List, ◌++◌, length, take,
  drop, get_elem?, get_elem?-drop, get_elem?-bound, take-append-drop, length-take, length-drop, All,
  All-drop, u32, sub64, ok, err, length-append, ◌⊎◌, IsU32,
}
use aegis_log.Storage.Mapped.{IsBlank}
use aegis_log.Storage.Index.{SparseIndex, lookup}
use aegis_log.Storage.Index.Content.{Entry, Holds}
use aegis_log.Storage.Index.Sound.{AllEntries, lookup-Answers}
use aegis_log.Storage.Segment.{Segment, read_loop, read_at, offset_not_found}
use aegis_log.Storage.Segment.Frames.{IsSmall, wire, wire-append_all, length-wire}
use aegis_log.Storage.Segment.Grow.{Stores}
use aegis_log.Storage.Segment.Read.{From, loop-finds}

-- The relative offset `rel` belongs to the frame at `pos`, or to the end of the frames.
abbrev pub IsMark : ℕ → List (List ℕ) → ℕ → ℕ → Type 0
IsMark base ps rel pos = (rel ≤ length ps) × (pos ≡ length (wire base (take rel ps)))

-- Every entry of the index is a mark, in whatever order the entries stand, and zeros follow.
pub record Points (base : ℕ) (ps : List (List ℕ)) (idx : SparseIndex) : Type 0 where
  pub entries : List Entry
  pub spare : List ℕ
  pub blank : IsBlank spare
  pub held : Holds idx entries spare
  pub sound : AllEntries (IsMark base ps) entries

pub IsMark-start : (base : ℕ) (ps : List (List ℕ)) → IsMark base ps 0 0
IsMark-start base ps = (omega arith, refl)

-- The frames start again at a mark.
mark-From :
    (s : Segment) (ps : List (List ℕ)) (rest : List ℕ) (rel pos : ℕ)
    → Stores s ps rest
    → All IsSmall ps
    → s.base_offset + length ps < 2 ^ 64
    → IsMark s.base_offset ps rel pos
    → From s (s.base_offset + rel) pos (drop rel ps)
mark-From s ps rest rel pos held small top (le, at) =
    let base = s.base_offset in
    let front = take rel ps in
    let back = drop rel ps in
    let len : length front ≡ rel = omega (arith, length-take rel ps) in
    let split : wire base ps ≡ wire base front ++ wire (base + rel) back =
      ap (wire base) (sym (take-append-drop rel ps))
      ∙ wire-append_all base front back
      ∙ ap (λ n. wire base front ++ wire (base + n) back) len in
    record {
      pre = wire base front;
      rest = rest;
      layout =
          held.layout
          ∙ ap (λ t. t ++ rest) split
          ∙ append_assoc (wire base front) (wire (base + rel) back) rest;
      at = at;
      to_end = omega (
        arith,
        held.at_end,
        at,
        ap length split,
        length-append (wire base front) (wire (base + rel) back),
      );
      small = All-drop IsSmall rel ps small;
      top = omega (arith, length-drop rel ps);
    }

read_at-inside :
    (s : Segment) (k start : ℕ) (found : Bool) (p : List ℕ)
    → s.base_offset + k < s.next_offset
    → s.next_offset < 2 ^ 64
    → IsU32 k
    → lookup s.index k ≡ some (start, found)
    → read_loop (length s.bytes) s (s.base_offset + k) start ≡ some (ok p)
    → read_at s (s.base_offset + k) ≡ some (ok p)
unfolding read_at
read_at-inside s k start found p lt top small e r =
    let rel : u32 (sub64 (s.base_offset + k) s.base_offset) ≡ k = omega arith in
    ground (arith, rel, e, r)

-- A message of the segment is read back at its offset, through an index whose entries are all marks, in order or not: the lookup and the loop end, and no fault occurs.
pub read_at-eq :
    (s : Segment) (ps : List (List ℕ)) (rest : List ℕ) (k : ℕ) (p : List ℕ)
    → Stores s ps rest
    → Points s.base_offset ps s.index
    → All IsSmall ps
    → s.base_offset + length ps < 2 ^ 64
    → get_elem? ps k ≡ some p
    → read_at s (s.base_offset + k) ≡ some (ok p)
read_at-eq s ps rest k p held points small top e =
    let base = s.base_offset in
    let bound = get_elem?-bound ps k e in
    let total : length s.bytes ≡ length (wire base ps ++ rest) = ap length held.layout in
    let many : length ps ≤ length s.bytes =
      omega (arith, length-append (wire base ps) rest, length-wire base ps) in
    let ((start, found), answer, (rel, le, mark)) =
      lookup-Answers s.index points.entries points.spare points.held (IsMark base ps)
        (IsMark-start base ps) points.sound k in
    let from = mark-From s ps rest rel start held small top mark in
    let there : get_elem? (drop rel ps) (k - rel) ≡ some p =
      get_elem?-drop rel ps (k - rel) ∙ ap (get_elem? ps) (omega arith) ∙ e in
    let offset : (base + rel) + (k - rel) ≡ base + k = omega arith in
    read_at-inside s k start found p (omega (arith, held.next)) (omega (arith, held.next))
      (omega (arith, held.range.0, held.range.1)) answer
      (ap (λ o. read_loop (length s.bytes) s o start) (sym offset)
        ∙ loop-finds (length s.bytes) s (base + rel) start (drop rel ps) (k - rel) p held.range from
            (omega (arith, length-drop rel ps)) there)

-- Outside its offsets a segment answers that it does not have the message.
pub read_at-outside :
    (s : Segment) (offset : ℕ)
    → (offset < s.base_offset) ⊎ (s.next_offset ≤ offset)
    → read_at s offset ≡ some (err offset_not_found)
unfolding read_at
read_at-outside s offset out = ground arith
