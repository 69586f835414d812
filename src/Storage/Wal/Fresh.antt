-- ===== src/Storage/Wal/Fresh.antt =====
-- `NewSegment` of storage/wal_segment.go on files that are only now made, and on those of an earlier segment.
use aegis_log.Common.{
  ℕ, ◌+◌, ◌*◌, ◌/◌, ◌-◌, ◌^◌, ◌<◌, ◌≡◌, ◌≢◌, ◌∙◌, refl, sym, ap, arith, some, List, [], ◌∷◌, ◌++◌,
  length, get_elem?, take_all, take-append_eq, length-append, ok, inl, inr, All,
}
use aegis_log.Network.Frame.{header_size, max_payload_size}
use aegis_log.Storage.Mapped.{zeros, length-zeros, IsBlank, zeros-IsBlank}
use aegis_log.Storage.Index.{SparseIndex}
use aegis_log.Storage.Index.Content.{encode_entries, length-encode_entries}
use aegis_log.Storage.Segment.{Segment, recover}
use aegis_log.Storage.Segment.Frames.{IsSmall, wire}
use aegis_log.Storage.Segment.Recovery.{IsFree, InRange, recover-eq}
use aegis_log.Storage.Segment.Grow.{HasRoom}
use aegis_log.Storage.Segment.Fetch.{Points}
use aegis_log.Storage.Segment.Marks.{Serves}
use aegis_log.Storage.Wal.{Files, Disk, view_of, open_sparse_index, unrecovered, new_segment}

-- A size of segments at which no position wraps, and an interval that is no division by zero.
pub record IsConfig (max_bytes interval : ℕ) : Type 0 where
  pub fits : max_bytes + header_size + max_payload_size < 2 ^ 32
  pub nonzero : interval ≢ 0

pub IsBlank-IsFree : (bytes : List ℕ) → IsBlank bytes → IsFree bytes
unfolding zeros
IsBlank-IsFree [] blank = inl (omega arith)
IsBlank-IsFree (b ∷ bytes) blank = inr (0, ap (λ t. get_elem? t 0) blank, λ e. absurd (omega arith))

pub view_of-whole : (size : ℕ) (file : List ℕ) → length file ≡ size → view_of size file ≡ file
unfolding view_of
view_of-whole size file e = take-append_eq size file (zeros (size - length file)) (sym e)

pub view_of-new : (size : ℕ) → view_of size [] ≡ zeros size
unfolding view_of
view_of-new size =
    take_all size (zeros (size - 0)) (omega (arith, length-zeros (size - 0)))
    ∙ ap zeros (omega arith)

pub new_segment-eq :
    (disk : Disk) (base max_bytes interval : ℕ) (files : Files) (s : Segment)
    → interval ≢ 0
    → disk base ≡ some files
    → recover (unrecovered base max_bytes interval files) ≡ some s
    → new_segment disk base max_bytes interval ≡ some (ok s)
unfolding new_segment
new_segment-eq disk base max_bytes interval files s h d r = ground (arith, d, r)

Points-HasRoom :
    (base : ℕ) (ps : List (List ℕ)) (idx : SparseIndex) → Points base ps idx → HasRoom idx
Points-HasRoom base ps idx points = omega (
  arith,
  points.held.room,
  ap length points.held.layout,
  length-append (encode_entries points.entries) points.spare,
  length-encode_entries points.entries,
)

-- A segment over bytes that hold frames and then zeros, and an index of marks, serves the payloads of the frames.
pub new_segment-Serves :
    (disk : Disk) (base max_bytes interval : ℕ) (files : Files) (ps : List (List ℕ)) (rest : List ℕ)
    → IsConfig max_bytes interval
    → disk base ≡ some files
    → view_of max_bytes files.log ≡ wire base ps ++ rest
    → length (wire base ps ++ rest) ≡ max_bytes
    → All IsSmall ps
    → base + length ps < 2 ^ 64
    → IsBlank rest
    → Points base ps (open_sparse_index files.index (max_bytes / interval + 16))
    → (s : Segment) × (new_segment disk base max_bytes interval ≡ some (ok s))
      × (s.base_offset ≡ base)
      × (s.max_bytes ≡ max_bytes)
      × (s.index_interval ≡ interval)
      × Serves s ps rest
unfolding open_sparse_index
new_segment-Serves disk base max_bytes interval files ps rest config d view len small top blank
      points =
    let u = unrecovered base max_bytes interval files in
    let range : InRange u = (ap length view ∙ len, config.fits) in
    let s : Segment = record u {
      write_pos = length (wire base ps);
      next_offset = base + length ps;
    } in
    (
      s,
      new_segment-eq disk base max_bytes interval files s config.nonzero d
          (recover-eq u ps rest view refl range small top (IsBlank-IsFree rest blank)),
      refl,
      refl,
      refl,
      record {
        stores = record {
          layout = view;
          at_end = refl;
          next = refl;
          range = range;
          index_room = Points-HasRoom base ps u.index points;
        };
        points = points;
        small = small;
        opened = refl;
        blank = blank;
        sized = refl;
      },
    )

-- The index of a new file has no entries.
new_index-Points : (base max_entries : ℕ) → Points base [] (open_sparse_index [] max_entries)
unfolding open_sparse_index
new_index-Points base max_entries = record {
  entries = [];
  spare = zeros (max_entries * 8);
  blank = zeros-IsBlank (max_entries * 8);
  held = record {
    layout = view_of-new (max_entries * 8);
    count = omega arith;
    room = omega (arith, length-zeros (max_entries * 8));
    small = λ i rel pos e. cc;
  };
  sound = λ i rel pos e. cc;
}

-- A segment over new files serves no payload yet.
pub new_segment-fresh :
    (disk : Disk) (base max_bytes interval : ℕ)
    → IsConfig max_bytes interval
    → base < 2 ^ 64
    → disk base ≡ some (record { log = []; index = [] })
    → (s : Segment) × (new_segment disk base max_bytes interval ≡ some (ok s))
      × (s.base_offset ≡ base)
      × (s.max_bytes ≡ max_bytes)
      × (s.index_interval ≡ interval)
      × Serves s [] (zeros max_bytes)
new_segment-fresh disk base max_bytes interval config top d =
    new_segment-Serves disk base max_bytes interval (record { log = []; index = [] }) []
      (zeros max_bytes) config d (view_of-new max_bytes) (length-zeros max_bytes) tt (omega arith)
      (zeros-IsBlank max_bytes) (new_index-Points base (max_bytes / interval + 16))
