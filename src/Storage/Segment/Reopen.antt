-- ===== src/Storage/Segment/Reopen.antt =====
-- A segment of storage/wal_segment.go that is opened again after messages were appended.
use aegis_log.Common.{
  ℕ, ◌+◌, ◌^◌, ◌≤◌, ◌<◌, ◌≡◌, ◌∙◌, refl, sym, arith, false, some, List, [], ◌∷◌, ◌++◌, length, drop,
  All, ok, length-append,
}
use aegis_log.Storage.Index.{SparseIndex}
use aegis_log.Storage.Segment.{Segment, append, recover}
use aegis_log.Storage.Segment.Frames.{IsSmall}
use aegis_log.Storage.Segment.Recovery.{IsFree, recover-eq}
use aegis_log.Storage.Segment.Grow.{Stores, append-Stores}

-- What `NewSegment` makes of the bytes of an earlier segment before it calls `recover`, with the index that it opens.
abbrev pub reopened : Segment → SparseIndex → Segment
reopened s index = record s {
  next_offset = s.base_offset;
  index = index;
  write_pos = 0;
  last_index_byte = 0;
  is_closed = false;
}

-- The segment with that index and no mark of a checkpoint.
abbrev pub restored : Segment → SparseIndex → Segment
restored s index = record s { index = index; last_index_byte = 0; is_closed = false }

Stores-recovers :
    (s : Segment) (index : SparseIndex) (ps : List (List ℕ)) (rest : List ℕ)
    → Stores s ps rest
    → All IsSmall ps
    → s.base_offset + length ps < 2 ^ 64
    → IsFree rest
    → recover (reopened s index) ≡ some (restored s index)
Stores-recovers s index ps rest held small top free =
    recover-eq (reopened s index) ps rest held.layout refl held.range small top free ∙ (λ i.
      some (record (restored s index) {
        write_pos = sym held.at_end i;
        next_offset = sym held.next i;
      }))

All-end :
    (ps : List (List ℕ)) (p : List ℕ) → All IsSmall ps → IsSmall p → All IsSmall (ps ++ (p ∷ []))
All-end [] p smalls small = (small, tt)
All-end (q ∷ ps) p (first, smalls) small = (first, All-end ps p smalls small)

-- A segment to which a message was appended is restored by recovery from its bytes, its write position and its next offset included, whatever index it is reopened with; its mark of the last checkpoint is not. The conditions are those of the append, and that no frame starts in the bytes that the append left free.
pub append_survives :
    (s : Segment) (index : SparseIndex) (ps : List (List ℕ)) (rest p : List ℕ)
    → Stores s ps rest
    → All IsSmall ps
    → s.is_closed ≡ false
    → IsSmall p
    → s.base_offset + length ps + 1 < 2 ^ 64
    → 17 + length p ≤ length rest
    → IsFree (drop (17 + length p) rest)
    → (s' : Segment) × (append s s.next_offset p ≡ some (ok (s', s.write_pos)))
      × (recover (reopened s' index) ≡ some (restored s' index))
append_survives s index ps rest p held smalls opened small top fits free =
    let (s', e, base, held') = append-Stores s ps rest p held opened small top fits in
    (
      s',
      e,
      Stores-recovers s' index (ps ++ (p ∷ [])) (drop (17 + length p) rest) held'
          (All-end ps p smalls small) (omega (arith, base, length-append ps (p ∷ []))) free,
    )
