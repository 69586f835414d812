-- ===== src/Storage/Wal/Reopen.antt =====
-- `OpenWAL` of storage/wal_segment.go over the files of an earlier log.
use mathlib.Core.List.{append-nil}
use mathlib.Core.Path.{subst, ap₂}
use native.Mathlib.Decide.{dec_lt}
use aegis_log.Common.{
  ℕ, zero, suc, ◌+◌, ◌-◌, ◌*◌, ◌/◌, ◌^◌, ◌<◌, ◌≡◌, ◌∙◌, refl, sym, ap, arith, some, List, [], ◌∷◌,
  ◌++◌, length, get_elem?, get_elem?-append_left, get_elem?-append_right, length-append, ok, IsU32,
}
use aegis_log.Storage.Mapped.{zeros}
use aegis_log.Storage.Index.{SparseIndex}
use aegis_log.Storage.Index.Content.{
  Entry, encode_entries, encode_entries-append, length-encode_entries,
}
use aegis_log.Storage.Segment.{Segment}
use aegis_log.Storage.Segment.Fetch.{IsMark, Points, IsMark-start}
use aegis_log.Storage.Segment.Marks.{Serves}
use aegis_log.Storage.Wal.{Disk, new_segment, open_sparse_index, open_segments}
use aegis_log.Storage.Wal.Fresh.{IsConfig, view_of-whole, new_segment-Serves}

-- The entries that the zeros behind the last entry are read as.
blank_entries : ℕ → List Entry
blank_entries zero = []
blank_entries (suc n) = (0, 0) ∷ blank_entries n

encode-blank : (n : ℕ) → encode_entries (blank_entries n) ≡ zeros (n * 8)
unfolding blank_entries zeros
encode-blank zero = refl
encode-blank (suc n) =
    let e : suc n * 8 ≡ suc (suc (suc (suc (suc (suc (suc (suc (n * 8)))))))) = omega arith in
    ap (λ t. 0 ∷ 0 ∷ 0 ∷ 0 ∷ 0 ∷ 0 ∷ 0 ∷ 0 ∷ t) (encode-blank n) ∙ ap zeros (sym e)

length-blank_entries : (n : ℕ) → length (blank_entries n) ≡ n
unfolding blank_entries
length-blank_entries zero = refl
length-blank_entries (suc n) = omega (arith, length-blank_entries n)

blank_entries-get :
    (n i rel pos : ℕ) → get_elem? (blank_entries n) i ≡ some (rel, pos) → (rel ≡ 0) × (pos ≡ 0)
unfolding blank_entries
blank_entries-get zero i rel pos e = cc
blank_entries-get (suc n) zero rel pos e = (cc, cc)
blank_entries-get (suc n) (suc i) rel pos e = blank_entries-get n i rel pos e

-- What holds of the entries and of a blank one holds of all when blank entries follow.
padded :
    (P : ℕ → ℕ → Type 0) (es : List Entry) (n : ℕ)
    → P 0 0
    → ((i rel pos : ℕ) → get_elem? es i ≡ some (rel, pos) → P rel pos)
    → (i rel pos : ℕ) → get_elem? (es ++ blank_entries n) i ≡ some (rel, pos)
    → P rel pos
padded P es n start all i rel pos e = elim (dec_lt i (length es)) [
  | yes old ↦ all i rel pos (sym (get_elem?-append_left es (blank_entries n) i old) ∙ e)
  | no new ↦
      let (zero_rel, zero_pos) =
        blank_entries-get n (i - length es) rel pos
          (get_elem?-append_right es (blank_entries n) i (omega arith) ∙ e) in
      subst (λ p. P rel p) (sym zero_pos) (subst (λ r. P r 0) (sym zero_rel) start)
]

-- The index that is opened again counts its blank entries, and still has marks only.
reopened-Points :
    (base : ℕ) (ps : List (List ℕ)) (idx : SparseIndex)
    → Points base ps idx
    → Points base ps (open_sparse_index idx.bytes idx.max_entries)
unfolding open_sparse_index zeros
reopened-Points base ps idx points =
    let es = points.entries in
    let n = idx.max_entries - length es in
    let total : length idx.bytes ≡ idx.max_entries * 8 = omega (
      arith,
      ap length points.held.layout,
      length-append (encode_entries es) points.spare,
      length-encode_entries es,
      points.held.room,
    ) in
    let spare_eq : points.spare ≡ encode_entries (blank_entries n) =
      points.blank ∙ ap zeros (omega (arith, points.held.room)) ∙ sym (encode-blank n) in
    record {
      entries = es ++ blank_entries n;
      spare = [];
      blank = refl;
      held = record {
        layout =
            view_of-whole (idx.max_entries * 8) idx.bytes total
            ∙ points.held.layout
            ∙ ap (λ t. encode_entries es ++ t) spare_eq
            ∙ sym (encode_entries-append es (blank_entries n))
            ∙ sym (append-nil (encode_entries (es ++ blank_entries n)));
        count = omega (
          arith,
          total,
          length-append es (blank_entries n),
          length-blank_entries n,
          points.held.room,
        );
        room =
            omega
              (arith, length-append es (blank_entries n), length-blank_entries n, points.held.room);
        small =
            padded (λ rel pos. IsU32 rel × IsU32 pos) es n (omega arith, omega arith)
              points.held.small;
      };
      sound = padded (IsMark base ps) es n (IsMark-start base ps) points.sound;
    }

-- The files of a segment hold what it wrote, and the segment has the configuration of the log.
pub record OnDisk (disk : Disk) (max_bytes interval : ℕ) (s : Segment) : Type 0 where
  pub files : disk s.base_offset ≡ some (record { log = s.bytes; index = s.index.bytes })
  pub same_max : s.max_bytes ≡ max_bytes
  pub same_interval : s.index_interval ≡ interval

-- A segment opened again serves what it served.
pub reopen_segment :
    (disk : Disk) (max_bytes interval : ℕ) (s : Segment) (ps : List (List ℕ)) (rest : List ℕ)
    → IsConfig max_bytes interval
    → OnDisk disk max_bytes interval s
    → Serves s ps rest
    → s.base_offset + length ps < 2 ^ 64
    → (s' : Segment) × (new_segment disk s.base_offset max_bytes interval ≡ some (ok s'))
      × (s'.base_offset ≡ s.base_offset)
      × (s'.max_bytes ≡ max_bytes)
      × (s'.index_interval ≡ interval)
      × Serves s' ps rest
reopen_segment disk max_bytes interval s ps rest config on served top =
    let held = served.stores in
    let size : length s.bytes ≡ max_bytes = held.range.0 ∙ on.same_max in
    let entries : s.index.max_entries ≡ max_bytes / interval + 16 =
      served.sized ∙ ap₂ (λ m i. m / i + 16) on.same_max on.same_interval in
    new_segment-Serves disk s.base_offset max_bytes interval
      (record { log = s.bytes; index = s.index.bytes }) ps rest config on.files
      (view_of-whole max_bytes s.bytes size ∙ held.layout) (sym (ap length held.layout) ∙ size)
      served.small top served.blank
      (subst (λ m. Points s.base_offset ps (open_sparse_index s.index.bytes m)) entries
        (reopened-Points s.base_offset ps s.index served.points))

-- The base offsets of segments and the active one: the first, and the others.
abbrev pub first_base : List Segment → Segment → ℕ
first_base [] a = a.base_offset
first_base (s ∷ ss) a = s.base_offset

abbrev pub later_bases : List Segment → Segment → List ℕ
later_bases [] a = []
later_bases (s ∷ ss) a = first_base ss a ∷ later_bases ss a

pub open_last :
    (disk : Disk) (max_bytes interval : ℕ) (closed : List Segment) (base : ℕ) (s : Segment)
    → new_segment disk base max_bytes interval ≡ some (ok s)
    → open_segments disk max_bytes interval closed base [] ≡ some (ok (closed, s))
unfolding open_segments
open_last disk max_bytes interval closed base s e = rw e refl

pub open_next :
    (disk : Disk) (max_bytes interval : ℕ) (closed : List Segment) (base next : ℕ) (bases : List ℕ)
    (s : Segment)
    → new_segment disk base max_bytes interval ≡ some (ok s)
    → open_segments disk max_bytes interval closed base (next ∷ bases)
      ≡ open_segments disk max_bytes interval (closed ++ (s ∷ [])) next bases
unfolding open_segments
open_next disk max_bytes interval closed base next bases s e = rw (open_segments, e) refl
