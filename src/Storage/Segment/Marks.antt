-- ===== src/Storage/Segment/Marks.antt =====
-- The index of a segment of storage/wal_segment.go stays one of marks under `Append`.
use mathlib.Core.Path.{subst, ap₂}
use native.Mathlib.Decide.{dec_lt}
use aegis_log.Common.{
  ℕ, ◌+◌, ◌/◌, ◌^◌, ◌≤◌, ◌<◌, ◌≡◌, ◌∙◌, refl, sym, ap, arith, false, some, List, [], ◌∷◌, ◌++◌,
  length, drop, take-append_left, take-append_eq, All, u32, sub64, ok, length-append, inl, inr,
  IsU32,
}
use aegis_log.Storage.Mapped.{IsBlank, IsBlank-drop}
use aegis_log.Storage.Index.{SparseIndex}
use aegis_log.Storage.Index.{append as index_append}
use aegis_log.Storage.Index.Grow.{append-Holds, entry-append}
use aegis_log.Storage.Segment.{Segment, append}
use aegis_log.Storage.Segment.Frames.{IsSmall, wire, length-wire}
use aegis_log.Storage.Segment.Grow.{Stores, append-Stores_keeping, index_append-full}
use aegis_log.Storage.Segment.Fetch.{IsMark, Points}

-- A mark stays one when a frame is put behind.
IsMark-later :
    (base : ℕ) (ps : List (List ℕ)) (p : List ℕ) (rel pos : ℕ)
    → IsMark base ps rel pos
    → IsMark base (ps ++ (p ∷ [])) rel pos
IsMark-later base ps p rel pos (le, at) = (
  omega (arith, length-append ps (p ∷ [])),
  at ∙ ap (λ t. length (wire base t)) (sym (take-append_left rel ps (p ∷ []) le)),
)

Points-later :
    (base : ℕ) (ps : List (List ℕ)) (p : List ℕ) (idx : SparseIndex)
    → Points base ps idx
    → Points base (ps ++ (p ∷ [])) idx
Points-later base ps p idx points = record {
  entries = points.entries;
  spare = points.spare;
  blank = points.blank;
  held = points.held;
  sound = λ i rel pos e. IsMark-later base ps p rel pos (points.sound i rel pos e);
}

index_append-room :
    (idx idx' : SparseIndex) (rel pos : ℕ)
    → index_append idx rel pos ≡ some (ok idx')
    → idx.entry_count < idx.max_entries
index_append-room idx idx' rel pos e = elim (dec_lt idx.entry_count idx.max_entries) [
  | yes room ↦ room
  | no full ↦ cc (index_append-full idx rel pos (omega arith), e)
]

-- The end of the frames is the mark of the message that is appended.
IsMark-end :
    (base : ℕ) (ps : List (List ℕ)) (p : List ℕ) (rel pos : ℕ)
    → rel ≡ length ps
    → pos ≡ length (wire base ps)
    → IsMark base (ps ++ (p ∷ [])) rel pos
IsMark-end base ps p rel pos e at = (
  omega (arith, length-append ps (p ∷ [])),
  at ∙ ap (λ t. length (wire base t)) (sym (take-append_eq rel ps (p ∷ []) e)),
)

Points-grown :
    (base : ℕ) (ps : List (List ℕ)) (p : List ℕ) (idx idx' : SparseIndex) (rel pos : ℕ)
    → Points base ps idx
    → rel ≡ length ps
    → pos ≡ length (wire base ps)
    → IsU32 rel
    → IsU32 pos
    → index_append idx rel pos ≡ some (ok idx')
    → Points base (ps ++ (p ∷ [])) idx' × (idx'.max_entries ≡ idx.max_entries)
Points-grown base ps p idx idx' rel pos points e at small_rel small_pos added =
    let room = index_append-room idx idx' rel pos added in
    let (idx'', added', same_max, held) =
      append-Holds idx points.entries points.spare points.held rel pos
        (omega (arith, points.held.count, room)) small_rel small_pos in
    let same : idx'' ≡ idx' = cc (added, added') in
    subst (λ i. Points base (ps ++ (p ∷ [])) i × (i.max_entries ≡ idx.max_entries)) same
      (
        record {
          entries = points.entries ++ ((rel, pos) ∷ []);
          spare = drop 8 points.spare;
          blank = IsBlank-drop 8 points.spare points.blank;
          held = held;
          sound = λ i r q get. elim (entry-append points.entries rel pos i r q get) [
            | inl old ↦ IsMark-later base ps p r q (points.sound i r q old)
            | inr (same_rel, same_pos) ↦
                IsMark-end base ps p r q (sym same_rel ∙ e) (sym same_pos ∙ at)
          ];
        },
        same_max,
      )

-- An open segment that stores payloads, with an index of marks and zeros behind the frames.
pub record Serves (s : Segment) (ps : List (List ℕ)) (rest : List ℕ) : Type 0 where
  pub stores : Stores s ps rest
  pub points : Points s.base_offset ps s.index
  pub small : All IsSmall ps
  pub opened : s.is_closed ≡ false
  pub blank : IsBlank rest
  pub sized : s.index.max_entries ≡ s.max_bytes / s.index_interval + 16

All-end :
    (ps : List (List ℕ)) (p : List ℕ) → All IsSmall ps → IsSmall p → All IsSmall (ps ++ (p ∷ []))
All-end [] p smalls small = (small, tt)
All-end (q ∷ ps) p (first, smalls) small = (first, All-end ps p smalls small)

-- Appending the next offset to an open segment with room keeps what it serves and adds the payload, the index included.
pub append-Serves :
    (s : Segment) (ps : List (List ℕ)) (rest p : List ℕ)
    → Serves s ps rest
    → IsSmall p
    → s.base_offset + length ps + 1 < 2 ^ 64
    → 17 + length p ≤ length rest
    → (s' : Segment) × (append s s.next_offset p ≡ some (ok (s', s.write_pos)))
      × (s'.base_offset ≡ s.base_offset)
      × (s'.max_bytes ≡ s.max_bytes)
      × (s'.index_interval ≡ s.index_interval)
      × Serves s' (ps ++ (p ∷ [])) (drop (17 + length p) rest)
append-Serves s ps rest p served small top fits =
    let base = s.base_offset in
    let held = served.stores in
    let total : length s.bytes ≡ length (wire base ps ++ rest) = ap length held.layout in
    let bounds : (length ps ≤ length (wire base ps)) × (length (wire base ps) < 2 ^ 32) = (
      length-wire base ps,
      omega (arith, held.range.0, held.range.1, length-append (wire base ps) rest),
    ) in
    let rel : u32 (sub64 s.next_offset base) ≡ length ps = omega (arith, held.next) in
    let (s', e, same_base, held', opened', same_max, same_interval, (points', same_size)) =
      append-Stores_keeping
        (λ idx. Points base (ps ++ (p ∷ [])) idx × (idx.max_entries ≡ s.index.max_entries)) s ps
        rest p held served.opened small top fits
        (Points-later base ps p s.index served.points, refl)
        (λ idx added.
          Points-grown base ps p s.index idx (u32 (sub64 s.next_offset base)) s.write_pos
            served.points rel held.at_end (omega arith) (omega (arith, held.at_end)) added) in
    (
      s',
      e,
      same_base,
      same_max,
      same_interval,
      record {
        stores = held';
        points = subst (λ b. Points b (ps ++ (p ∷ [])) s'.index) (sym same_base) points';
        small = All-end ps p served.small small;
        opened = opened';
        blank = IsBlank-drop (17 + length p) rest served.blank;
        sized =
            same_size ∙ served.sized ∙ ap₂ (λ m i. m / i + 16) (sym same_max) (sym same_interval);
      },
    )
