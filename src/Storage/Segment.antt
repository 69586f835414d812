-- ===== src/Storage/Segment.antt =====
-- storage/wal_segment.go: a segment of the log over its mapped bytes.
pub mod Frames
pub mod Recovery
pub mod Grow
pub mod Reopen
pub mod Read
pub mod Fetch
pub mod Marks
use aegis_log.Common.{
  ℕ, zero, suc, ◌+◌, ltb, leb, ◌==◌, ◌||◌, if◌then◌else◌, Bool, true, false, Option, some, none,
  List, length, drop, get_elem?, u32, u64, sub32, sub64, Result, ok, err,
}
use aegis_log.Common.Faults.{◌>>=◌}
use aegis_log.Network.Frame.{FrameError, eof, encode_frame, decode_frame, header_size, magic_byte}
use aegis_log.Storage.Mapped.{write_at, range}
use aegis_log.Storage.Index.{SparseIndex, lookup}
use aegis_log.Storage.Index.{append as index_append}

-- `bytes` is `mmap.data`.
pub record Segment : Type 0 where
  pub base_offset : ℕ
  pub next_offset : ℕ
  pub bytes : List ℕ
  pub index : SparseIndex
  pub write_pos : ℕ
  pub max_bytes : ℕ
  pub last_index_byte : ℕ
  pub index_interval : ℕ
  pub is_closed : Bool

pub data SegmentError : Type 0 where
  wal_closed segment_full offset_not_found open_failed : SegmentError
  frame_error : FrameError → SegmentError

-- The checkpoint in the index, when it is due; an index that is full is left as it is.
unfoldable pub checkpoint : Segment → ℕ → Option Segment
checkpoint s offset =
    if leb s.index_interval (sub32 s.write_pos s.last_index_byte) || s.write_pos == 0
    then (index_append s.index (u32 (sub64 offset s.base_offset)) s.write_pos >>= λ result.
        elim result [
          | ok index ↦ some (record s { index = index; last_index_byte = s.write_pos })
          | err full ↦ some s
        ])
    else some s

-- `copy(s.mmap.data[entryPos:entryPos+frameLen], encoded)`, where the sum wraps at 32 bits.
unfoldable pub copy_frame : Segment → List ℕ → Option (List ℕ)
copy_frame s encoded =
    if ltb (u32 (s.write_pos + length encoded)) s.write_pos
    then none
    else write_at s.bytes s.write_pos encoded

-- The position of the frame comes with the segment.
unfoldable pub append : Segment → ℕ → List ℕ → Option (Result SegmentError (Segment × ℕ))
unfolding checkpoint copy_frame
append s offset payload =
    if s.is_closed then some (err wal_closed) else (elim (encode_frame offset payload) [
      | err e ↦ some (err (frame_error e))
      | ok encoded ↦
          if ltb s.max_bytes (u32 (s.write_pos + u32 (length encoded)))
          then some (err segment_full)
          else (checkpoint s offset >>= λ s'. copy_frame s encoded >>= λ bytes. some (
              ok (
                record s' {
                  bytes = bytes;
                  write_pos = u32 (s.write_pos + u32 (length encoded));
                  next_offset = u64 (offset + 1);
                },
                s.write_pos,
              )))
    ])

-- The loop of `recover` from `pos` on, with the offset behind the last frame, on fuel.
unfoldable pub recover_loop : ℕ → Segment → ℕ → ℕ → Option (ℕ × ℕ)
recover_loop zero s pos next = some (pos, next)
recover_loop (suc fuel) s pos next = elim (leb (u32 (pos + header_size)) s.max_bytes) [
  | false ↦ some (pos, next)
  | true ↦ get_elem? s.bytes pos >>= λ magic. elim (magic == magic_byte) [
    | false ↦ some (pos, next)
    | true ↦ elim (decode_frame (drop pos s.bytes)) [
      | err e ↦ some (pos, next)
      | ok (frame, rest) ↦
          recover_loop fuel s (u32 (pos + u32 (header_size + frame.length)))
            (u64 (frame.offset + 1))
    ]
  ]
]

-- Each frame takes a byte at least.
unfoldable pub recover : Segment → Option Segment
unfolding recover_loop
recover s = recover_loop (length s.bytes) s 0 s.next_offset >>= λ (pos, next).
    some (record s { write_pos = pos; next_offset = next })

-- What `ReadAt` does with an error of `DecodeFrame`: the end of the bytes ends the loop.
abbrev pub read_error : FrameError → SegmentError
read_error eof = offset_not_found
read_error e = frame_error e

-- The loop of `ReadAt` from `pos` on, on fuel.
unfoldable pub read_loop : ℕ → Segment → ℕ → ℕ → Option (Result SegmentError (List ℕ))
read_loop zero s offset pos = some (err offset_not_found)
read_loop (suc fuel) s offset pos = elim (ltb pos s.write_pos) [
  | false ↦ some (err offset_not_found)
  | true ↦ get_elem? s.bytes pos >>= λ magic. elim (magic == magic_byte) [
    | false ↦ some (err offset_not_found)
    | true ↦ range s.bytes pos s.write_pos >>= λ r. elim (decode_frame r) [
      | err e ↦ some (err (read_error e))
      | ok (frame, rest) ↦ elim (frame.offset == offset) [
        | true ↦ some (ok frame.payload)
        | false ↦ read_loop fuel s offset (u32 (pos + u32 (header_size + frame.length)))
      ]
    ]
  ]
]

-- `ReadAt` of a segment whose index is open. Each frame takes a byte at least.
unfoldable pub read_at : Segment → ℕ → Option (Result SegmentError (List ℕ))
unfolding read_loop
read_at s offset =
    if ltb offset s.base_offset || leb s.next_offset offset
    then some (err offset_not_found)
    else (lookup s.index (u32 (sub64 offset s.base_offset)) >>= λ (start, found).
        read_loop (length s.bytes) s offset start)
