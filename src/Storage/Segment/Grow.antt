-- ===== src/Storage/Segment/Grow.antt =====
-- What `Append` of storage/wal_segment.go adds to a segment.
use mathlib.Core.List.{append_assoc}
use native.Mathlib.Decide.{dec_lt}
use aegis_log.Common.{
  ℕ, ◌+◌, ◌*◌, ◌^◌, ◌≤◌, ◌<◌, ◌≡◌, ◌∙◌, refl, ap, arith, Bool, false, ◌||◌, some, List, [], ◌∷◌,
  ◌++◌, length, drop, take, length-drop, length-take, u32, u64, ok, err, length-append, le→leb,
  lt→leb, le→ltb, leb, ltb, ◌==◌, inl, inr, sub32, sub64, Bool-cases, be32,
}
use aegis_log.Storage.Mapped.{write_at, write_at-append}
use aegis_log.Storage.Index.{SparseIndex, index_full}
use aegis_log.Storage.Index.{append as index_append}
use aegis_log.Storage.Segment.{Segment, checkpoint, copy_frame, append}
use aegis_log.Storage.Segment.Frames.{
  IsSmall, frame_bytes, wire, wire-append, length-frame_bytes, encode_frame_bytes,
}
use aegis_log.Storage.Segment.Recovery.{InRange}

-- The index has room for the entries that it allows.
abbrev pub HasRoom : SparseIndex → Type 0
HasRoom idx = idx.max_entries * 8 ≤ length idx.bytes

-- The mapped bytes are the frames of the payloads and room behind them, and the two positions stand at their end.
pub record Stores (s : Segment) (ps : List (List ℕ)) (rest : List ℕ) : Type 0 where
  pub layout : s.bytes ≡ wire s.base_offset ps ++ rest
  pub at_end : s.write_pos ≡ length (wire s.base_offset ps)
  pub next : s.next_offset ≡ s.base_offset + length ps
  pub range : InRange s
  pub index_room : HasRoom s.index

write_at-total :
    (data' bytes : List ℕ) (at : ℕ)
    → at + length bytes ≤ length data'
    → (data'' : List ℕ) × (write_at data' at bytes ≡ some data'') × (length data'' ≡ length data')
unfolding write_at
write_at-total data' bytes at h = (
  take at data' ++ (bytes ++ drop (at + length bytes) data'),
  rw (le→leb (at + length bytes) (length data') h) refl,
  omega (
    arith,
    length-append (take at data') (bytes ++ drop (at + length bytes) data'),
    length-append bytes (drop (at + length bytes) data'),
    length-take at data',
    length-drop (at + length bytes) data',
  ),
)

index_append-eq :
    (idx : SparseIndex) (rel pos : ℕ) (b c : List ℕ)
    → idx.entry_count < idx.max_entries
    → write_at idx.bytes (idx.entry_count * 8) (be32 rel) ≡ some b
    → write_at b (idx.entry_count * 8 + 4) (be32 pos) ≡ some c
    → index_append idx rel pos
      ≡ some (ok (record idx { bytes = c; entry_count = idx.entry_count + 1 }))
unfolding index_append
index_append-eq idx rel pos b c h e f = rw (lt→leb idx.max_entries idx.entry_count h, e, f) refl

pub index_append-full :
    (idx : SparseIndex) (rel pos : ℕ)
    → idx.max_entries ≤ idx.entry_count
    → index_append idx rel pos ≡ some (err (index_full idx.entry_count))
unfolding index_append
index_append-full idx rel pos h = rw (le→leb idx.max_entries idx.entry_count h) refl

-- The test of a checkpoint.
abbrev is_due : Segment → Bool
is_due s = leb s.index_interval (sub32 s.write_pos s.last_index_byte) || s.write_pos == 0

-- A checkpoint does not fault, changes nothing but the index and its mark, and keeps what its entry keeps of the index.
checkpoint-total :
    (Q : SparseIndex → Type 0) (s : Segment) (offset : ℕ)
    → HasRoom s.index
    → Q s.index
    → ((idx : SparseIndex)
        → index_append s.index (u32 (sub64 offset s.base_offset)) s.write_pos ≡ some (ok idx)
        → Q idx)
    → (index : SparseIndex) × (mark : ℕ) × (checkpoint s offset
        ≡ some (record s { index = index; last_index_byte = mark }))
      × HasRoom index
      × Q index
unfolding checkpoint
checkpoint-total Q s offset h q grown = elim (Bool-cases (is_due s)) [
  | inr early ↦ (s.index, s.last_index_byte, rw early refl, h, q)
  | inl due ↦
      let idx = s.index in
      let rel = u32 (sub64 offset s.base_offset) in
      elim (dec_lt idx.entry_count idx.max_entries) [
        | no full ↦ (
          idx,
          s.last_index_byte,
          rw (due, index_append-full idx rel s.write_pos (omega arith)) refl,
          h,
          q,
        )
        | yes room ↦
            let (b, eb, lb) =
              write_at-total idx.bytes (be32 rel) (idx.entry_count * 8) (omega arith) in
            let (c, ec, lc) =
              write_at-total b (be32 s.write_pos) (idx.entry_count * 8 + 4) (omega arith) in
            let added = index_append-eq idx rel s.write_pos b c room eb ec in
            (
              record idx { bytes = c; entry_count = idx.entry_count + 1 },
              s.write_pos,
              rw (due, added) refl,
              omega (arith, lb, lc),
              grown (record idx { bytes = c; entry_count = idx.entry_count + 1 }) added,
            )
      ]
]

copy_frame-end :
    (s : Segment) (ps : List (List ℕ)) (rest frame : List ℕ)
    → Stores s ps rest
    → length frame ≤ length rest
    → copy_frame s frame ≡ some (wire s.base_offset ps ++ (frame ++ drop (length frame) rest))
unfolding copy_frame
copy_frame-end s ps rest frame held fits =
    let total : length s.bytes ≡ length (wire s.base_offset ps ++ rest) = ap length held.layout in
    let no_wrap : ltb (u32 (s.write_pos + length frame)) s.write_pos ≡ false =
      le→ltb (u32 (s.write_pos + length frame)) s.write_pos (
        omega (
          arith,
          held.range.0,
          held.range.1,
          held.at_end,
          length-append (wire s.base_offset ps) rest,
        )) in
    rw (no_wrap, held.layout)
      (write_at-append (wire s.base_offset ps) rest frame s.write_pos held.at_end fits)

append-steps :
    (s : Segment) (p bytes : List ℕ) (index : SparseIndex) (mark end : ℕ)
    → s.is_closed ≡ false
    → IsSmall p
    → u32 (s.write_pos + u32 (length (frame_bytes s.next_offset p))) ≡ end
    → end ≤ s.max_bytes
    → checkpoint s s.next_offset ≡ some (record s { index = index; last_index_byte = mark })
    → copy_frame s (frame_bytes s.next_offset p) ≡ some bytes
    → append s s.next_offset p
      ≡ some (
          ok (
            record s {
              index = index;
              last_index_byte = mark;
              bytes = bytes;
              write_pos = end;
              next_offset = u64 (s.next_offset + 1);
            },
            s.write_pos,
          ))
unfolding append
append-steps s p bytes index mark end opened small e fits c f =
    ground (
      arith,
      opened,
      encode_frame_bytes s.next_offset p small,
      e,
      le→ltb s.max_bytes end fits,
      c,
      f,
    )

wire-grown :
    (base next : ℕ) (ps : List (List ℕ)) (p rest : List ℕ)
    → next ≡ base + length ps
    → wire base ps ++ (frame_bytes next p ++ drop (length (frame_bytes next p)) rest)
      ≡ wire base (ps ++ (p ∷ [])) ++ drop (17 + length p) rest
wire-grown base next ps p rest e =
    let frame = frame_bytes (base + length ps) p in
    rw
      (
        e,
        length-frame_bytes (base + length ps) p,
        wire-append base ps p,
        append_assoc (wire base ps) frame (drop (17 + length p) rest),
      )
      refl

length-wire_grown :
    (base : ℕ) (ps : List (List ℕ)) (p : List ℕ)
    → length (wire base (ps ++ (p ∷ []))) ≡ length (wire base ps) + (17 + length p)
length-wire_grown base ps p =
    ap length (wire-append base ps p)
    ∙ omega (
      arith,
      length-append (wire base ps) (frame_bytes (base + length ps) p),
      length-frame_bytes (base + length ps) p,
    )

-- An append keeps what its entry in the index keeps.
pub append-Stores_keeping :
    (Q : SparseIndex → Type 0) (s : Segment) (ps : List (List ℕ)) (rest p : List ℕ)
    → Stores s ps rest
    → s.is_closed ≡ false
    → IsSmall p
    → s.base_offset + length ps + 1 < 2 ^ 64
    → 17 + length p ≤ length rest
    → Q s.index
    → ((idx : SparseIndex)
        → index_append s.index (u32 (sub64 s.next_offset s.base_offset)) s.write_pos ≡ some (ok idx)
        → Q idx)
    → (s' : Segment) × (append s s.next_offset p ≡ some (ok (s', s.write_pos)))
      × (s'.base_offset ≡ s.base_offset)
      × Stores s' (ps ++ (p ∷ [])) (drop (17 + length p) rest)
      × (s'.is_closed ≡ false)
      × (s'.max_bytes ≡ s.max_bytes)
      × (s'.index_interval ≡ s.index_interval)
      × Q s'.index
append-Stores_keeping Q s ps rest p held opened small top fits q grown =
    let frame = frame_bytes s.next_offset p in
    let len = length-frame_bytes s.next_offset p in
    let before = wire s.base_offset ps in
    let total : length s.bytes ≡ length (before ++ rest) = ap length held.layout in
    let room : length before + length rest ≡ s.max_bytes =
      omega (arith, held.range.0, length-append before rest) in
    let end = s.write_pos + (17 + length p) in
    let e : u32 (s.write_pos + u32 (length frame)) ≡ end =
      omega (arith, held.at_end, held.range.1) in
    let (index, mark, c, index_room, q') =
      checkpoint-total Q s s.next_offset held.index_room q grown in
    let after = drop (length frame) rest in
    let f = copy_frame-end s ps rest frame held (omega arith) in
    (
      record s {
        index = index;
        last_index_byte = mark;
        bytes = before ++ (frame ++ after);
        write_pos = end;
        next_offset = u64 (s.next_offset + 1);
      },
      append-steps s p (before ++ (frame ++ after)) index mark end opened small e
          (omega (arith, held.at_end)) c f,
      refl,
      record {
        layout = wire-grown s.base_offset s.next_offset ps p rest held.next;
        at_end = omega (arith, held.at_end, length-wire_grown s.base_offset ps p);
        next = omega (arith, held.next, length-append ps (p ∷ []));
        range = (
          omega (
            arith,
            length-append before (frame ++ after),
            length-append frame after,
            length-drop (length frame) rest,
          ),
          held.range.1,
        );
        index_room = index_room;
      },
      opened,
      refl,
      refl,
      q',
    )

-- Appending the next offset to an open segment with room for the frame does not fault, returns the position where the frame begins, and puts exactly this frame behind the earlier ones; the index may be full or not. The payload is at most 32 MB, the segment ends more than the largest frame below 2 ^ 32, and the offset behind it fits 64 bits.
pub append-Stores :
    (s : Segment) (ps : List (List ℕ)) (rest p : List ℕ)
    → Stores s ps rest
    → s.is_closed ≡ false
    → IsSmall p
    → s.base_offset + length ps + 1 < 2 ^ 64
    → 17 + length p ≤ length rest
    → (s' : Segment) × (append s s.next_offset p ≡ some (ok (s', s.write_pos)))
      × (s'.base_offset ≡ s.base_offset)
      × Stores s' (ps ++ (p ∷ [])) (drop (17 + length p) rest)
append-Stores s ps rest p held opened small top fits =
    let (s', e, base, held', opened', max, interval, q) =
      append-Stores_keeping (λ idx. Unit {0}) s ps rest p held opened small top fits tt
        (λ idx e. tt) in
    (s', e, base, held')
