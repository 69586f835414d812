-- ===== src/Storage/Wal.antt =====
-- storage/wal_segment.go: opening a segment, and the log of rolling segments.
pub mod Fresh
pub mod Chain
pub mod Held
pub mod Refine
pub mod Reopen
pub mod Restart
pub mod Tests
use aegis_log.Common.{
  ℕ, zero, suc, ◌+◌, ◌-◌, ◌*◌, ◌/◌, ltb, leb, ◌==◌, if◌then◌else◌, Bool, true, false, Option, some,
  none, List, [], ◌∷◌, ◌++◌, length, take, get_elem?, u32, u64, Result, ok, err,
}
use aegis_log.Common.Faults.{◌>>=◌}
use aegis_log.Network.Frame.{header_size}
use aegis_log.Storage.Mapped.{zeros}
use aegis_log.Storage.Index.{SparseIndex, index_entry_size}
use aegis_log.Storage.Segment.{
  Segment, SegmentError, wal_closed, offset_not_found, open_failed, append as segment_append,
  recover, read_at as segment_read_at,
}

-- What the two files of a segment hold; a file that is only now made is empty.
pub record Files : Type 0 where
  pub log : List ℕ
  pub index : List ℕ

-- The files of the segment with a base offset, or `none` where the system cannot open or map them.
abbrev pub Disk : Type 0
Disk = ℕ → Option Files

-- The view of `size` bytes of a file, which is made longer by zeros if it is too short.
unfoldable pub view_of : ℕ → List ℕ → List ℕ
view_of size file = take size (file ++ zeros (size - length file))

-- The entries are counted by the size of the file.
unfoldable pub open_sparse_index : List ℕ → ℕ → SparseIndex
unfolding view_of
open_sparse_index file max_entries = record {
  bytes = view_of (max_entries * index_entry_size) file;
  entry_count = length file / index_entry_size;
  max_entries = max_entries;
}

-- The segment before `recover`.
abbrev pub unrecovered : ℕ → ℕ → ℕ → Files → Segment
unrecovered base max_bytes interval files = record {
  base_offset = base;
  next_offset = base;
  bytes = view_of max_bytes files.log;
  index = open_sparse_index files.index (max_bytes / interval + 16);
  write_pos = 0;
  max_bytes = max_bytes;
  last_index_byte = 0;
  index_interval = interval;
  is_closed = false;
}

-- `NewSegment`; an interval of 0 is a division by zero.
unfoldable pub new_segment : Disk → ℕ → ℕ → ℕ → Option (Result SegmentError Segment)
unfolding open_sparse_index view_of
new_segment disk base max_bytes interval = elim (disk base) [
  | none ↦ some (err open_failed)
  | some files ↦
      if interval == 0
      then none
      else (recover (unrecovered base max_bytes interval files) >>= λ s. some (ok s))
]

-- `max_segment_bytes` and `index_interval` are those of the Config.
pub record Wal : Type 0 where
  pub max_segment_bytes : ℕ
  pub index_interval : ℕ
  pub active : Segment
  pub closed : List Segment
  pub next_offset : ℕ
  pub is_closed : Bool

-- `rollActiveSegment`: the log afterwards, and the error if there is one. A flush leaves the bytes as they are.
unfoldable pub roll_active_segment : Disk → Wal → Option (Wal × Option SegmentError)
unfolding new_segment
roll_active_segment disk w =
    let rolled = record w { closed = w.closed ++ (w.active ∷ []) } in
    new_segment disk w.next_offset w.max_segment_bytes w.index_interval >>= λ result. elim result [
      | err e ↦ some (rolled, some e)
      | ok s ↦ some (record rolled { active = s }, none)
    ]

-- The append to the active segment.
unfoldable pub append_active : Wal → List ℕ → Option (Wal × Result SegmentError ℕ)
append_active w payload = segment_append w.active w.next_offset payload >>= λ result. elim result [
  | err e ↦ some (w, err e)
  | ok (s, pos) ↦
      some (record w { active = s; next_offset = u64 (w.next_offset + 1) }, ok w.next_offset)
]

-- `Append`: the log afterwards, and the offset of the payload or the error.
unfoldable pub append : Disk → Wal → List ℕ → Option (Wal × Result SegmentError ℕ)
unfolding roll_active_segment append_active
append disk w payload =
    if w.is_closed
    then some (w, err wal_closed)
    else if ltb w.max_segment_bytes (u32 (w.active.write_pos + u32 (header_size + length payload)))
    then (roll_active_segment disk w >>= λ (rolled, failed). elim failed [
      | some e ↦ some (rolled, err e)
      | none ↦ append_active rolled payload
    ])
    else append_active w payload

-- The loop of `ReadAt` over the closed segments before number `i`, from the last one.
unfoldable pub read_closed : List Segment → ℕ → ℕ → Option (Result SegmentError (List ℕ))
read_closed closed zero offset = some (err offset_not_found)
read_closed closed (suc i) offset = get_elem? closed i >>= λ s. elim (leb s.base_offset offset) [
  | true ↦ segment_read_at s offset
  | false ↦ read_closed closed i offset
]

unfoldable pub read_at : Wal → ℕ → Option (Result SegmentError (List ℕ))
unfolding read_closed
read_at w offset =
    if w.is_closed
    then some (err wal_closed)
    else if leb w.active.base_offset offset
    then segment_read_at w.active offset
    else read_closed w.closed (length w.closed) offset

-- `sort.Slice` of the base offsets.
unfoldable pub insert_offset : ℕ → List ℕ → List ℕ
insert_offset b [] = b ∷ []
insert_offset b (c ∷ cs) = if leb b c then b ∷ (c ∷ cs) else c ∷ insert_offset b cs

unfoldable pub sort_offsets : List ℕ → List ℕ
unfolding insert_offset
sort_offsets [] = []
sort_offsets (b ∷ bs) = insert_offset b (sort_offsets bs)

-- The loop of `OpenWAL`: the last segment is the active one.
unfoldable pub open_segments :
    Disk → ℕ → ℕ → List Segment → ℕ → List ℕ → Option (Result SegmentError (List Segment × Segment))
unfolding new_segment
open_segments disk max_bytes interval closed base [] =
    new_segment disk base max_bytes interval >>= λ result. elim result [
      | err e ↦ some (err e)
      | ok s ↦ some (ok (closed, s))
    ]
open_segments disk max_bytes interval closed base (next ∷ bases) =
    new_segment disk base max_bytes interval >>= λ result. elim result [
      | err e ↦ some (err e)
      | ok s ↦ open_segments disk max_bytes interval (closed ++ (s ∷ [])) next bases
    ]

abbrev pub opened : ℕ → ℕ → List Segment × Segment → Wal
opened max_bytes interval (closed, active) = record {
  max_segment_bytes = max_bytes;
  index_interval = interval;
  active = active;
  closed = closed;
  next_offset = active.next_offset;
  is_closed = false;
}

-- The part of `OpenWAL` behind the names of the files; `listed` are the base offsets that they give.
unfoldable pub open_sorted : Disk → ℕ → ℕ → List ℕ → Option (Result SegmentError Wal)
unfolding open_segments
open_sorted disk max_bytes interval [] = open_segments disk max_bytes interval [] 0 [] >>= λ result.
    elim result [
      | err e ↦ some (err e)
      | ok segments ↦ some (ok (record (opened max_bytes interval segments) { next_offset = 0 }))
    ]
open_sorted disk max_bytes interval (base ∷ bases) =
    open_segments disk max_bytes interval [] base bases >>= λ result. elim result [
      | err e ↦ some (err e)
      | ok segments ↦ some (ok (opened max_bytes interval segments))
    ]

unfoldable pub open_wal : Disk → ℕ → ℕ → List ℕ → Option (Result SegmentError Wal)
unfolding open_sorted sort_offsets
open_wal disk max_bytes interval listed = open_sorted disk max_bytes interval (sort_offsets listed)

abbrev pub latest_offset : Wal → ℕ
latest_offset w = w.next_offset

-- `Close` of the log closes its segments too.
abbrev pub close_all : List Segment → List Segment
close_all [] = []
close_all (s ∷ ss) = record s { is_closed = true } ∷ close_all ss

abbrev pub close : Wal → Wal
close w = if w.is_closed then w else record w {
  is_closed = true;
  active = record w.active { is_closed = true };
  closed = close_all w.closed;
}
