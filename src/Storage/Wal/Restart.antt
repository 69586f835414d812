-- ===== src/Storage/Wal/Restart.antt =====
-- `OpenWAL` of storage/wal_segment.go restores a log from its files.
use mathlib.Core.List.{append_assoc, append-nil}
use mathlib.Core.Path.{subst}
use aegis_log.Common.{
  ℕ, ◌+◌, ◌^◌, ◌≤◌, ◌<◌, ◌≡◌, ◌∙◌, refl, sym, ap, arith, some, List, All, [], ◌∷◌, ◌++◌, length,
  length-append, ok, le→leb,
}
use aegis_log.Storage.Segment.{Segment}
use aegis_log.Storage.Wal.{
  Disk, Wal, open_segments, open_sorted, open_wal, opened, sort_offsets, insert_offset,
}
use aegis_log.Storage.Mapped.{zeros}
use aegis_log.Storage.Wal.Fresh.{IsConfig, new_segment-fresh}
use aegis_log.Storage.Wal.Chain.{Chain, Behind, Chain-append}
use aegis_log.Storage.Wal.Held.{Logs, length-log}
use aegis_log.Storage.Wal.Reopen.{
  OnDisk, reopen_segment, first_base, later_bases, open_last, open_next,
}

-- The segments that are opened for the payloads `log` in front of those of the active one.
record Opens (disk : Disk) (max_bytes interval : ℕ) (acc ss : List Segment) (a : Segment) (base : ℕ)
    (log ps : List (List ℕ)) : Type 0 where
  closed : List Segment
  active : Segment
  loop :
      open_segments disk max_bytes interval acc (first_base ss a) (later_bases ss a)
      ≡ some (ok (closed, active))
  chain : Chain closed base log
  behind : Behind active base log ps
  same_max : active.max_bytes ≡ max_bytes

reopen_segments :
    (disk : Disk) (max_bytes interval : ℕ) (acc ss : List Segment) (a : Segment) (base : ℕ)
    (front mid ps : List (List ℕ))
    → IsConfig max_bytes interval
    → Chain acc base front
    → Chain ss (base + length front) mid
    → Behind a base (front ++ mid) ps
    → All (OnDisk disk max_bytes interval) ss
    → OnDisk disk max_bytes interval a
    → base + length front + length mid + length ps < 2 ^ 64
    → Opens disk max_bytes interval acc ss a base (front ++ mid) ps
reopen_segments disk max_bytes interval acc [] a base front mid ps config before empty b ons on
      top =
    let whole : front ≡ front ++ mid = sym (append-nil front) ∙ ap (λ t. front ++ t) (sym empty) in
    let (a', e, same_base, same_max, same_interval, served) =
      reopen_segment disk max_bytes interval a ps b.rest config on b.serves
        (omega (arith, b.starts, length-append front mid)) in
    record {
      closed = acc;
      active = a';
      loop = open_last disk max_bytes interval acc a.base_offset a' e;
      chain = subst (Chain acc base) whole before;
      behind = record { rest = b.rest; starts = same_base ∙ b.starts; serves = served };
      same_max = same_max;
    }
reopen_segments disk max_bytes interval acc (s ∷ ss) a base front mid ps config before (l, chain) b
      (on_s, ons) on top =
    let (s', e, same_base, same_max, same_interval, served) =
      reopen_segment disk max_bytes interval s l.ps l.rest config on_s l.serves
        (omega (arith, l.starts, length-log mid l.ps l.back l.split)) in
    let front' = front ++ l.ps in
    let whole : front' ++ l.back ≡ front ++ mid =
      append_assoc front l.ps l.back ∙ ap (λ t. front ++ t) (sym l.split) in
    let shift : (base + length front) + length l.ps ≡ base + length front' =
      omega (arith, length-append front l.ps) in
    let o =
      reopen_segments disk max_bytes interval (acc ++ (s' ∷ [])) ss a base front' l.back ps config
        (Chain-append acc s' base front l.ps before
          (record { rest = l.rest; starts = same_base ∙ l.starts; serves = served }) l.not_empty)
        (subst (λ n. Chain ss n l.back) shift chain) (subst (λ t. Behind a base t ps) (sym whole) b)
        ons on (omega (arith, length-append front l.ps, length-log mid l.ps l.back l.split)) in
    record {
      closed = o.closed;
      active = o.active;
      loop =
          open_next disk max_bytes interval acc s.base_offset (first_base ss a) (later_bases ss a)
            s' e
          ∙ o.loop;
      chain = subst (Chain o.closed base) whole o.chain;
      behind = subst (λ t. Behind o.active base t ps) whole o.behind;
      same_max = o.same_max;
    }

-- The base offsets of a chain ascend.
bases-All :
    (ss : List Segment) (a : Segment) (low base : ℕ) (log : List (List ℕ))
    → Chain ss base log
    → a.base_offset ≡ base + length log
    → low ≤ base
    → All (λ b. low ≤ b) (first_base ss a ∷ later_bases ss a)
bases-All [] a low base log empty e le = (omega arith, tt)
bases-All (s ∷ ss) a low base log (l, chain) e le = (
  omega (arith, l.starts),
  bases-All ss a low (base + length l.ps) l.back chain
      (omega (arith, e, length-log log l.ps l.back l.split)) (omega arith),
)

insert_offset-front : (b : ℕ) (cs : List ℕ) → All (λ c. b ≤ c) cs → insert_offset b cs ≡ b ∷ cs
unfolding insert_offset
insert_offset-front b [] le = refl
insert_offset-front b (c ∷ cs) (le, les) = rw (le→leb b c le) refl

-- Sorting leaves them as they are.
sort_offsets-bases :
    (ss : List Segment) (a : Segment) (base : ℕ) (log : List (List ℕ))
    → Chain ss base log
    → a.base_offset ≡ base + length log
    → sort_offsets (first_base ss a ∷ later_bases ss a) ≡ first_base ss a ∷ later_bases ss a
unfolding sort_offsets
sort_offsets-bases [] a base log chain e = insert_offset-front a.base_offset [] tt
sort_offsets-bases (s ∷ ss) a base log (l, chain) e =
    let e' : a.base_offset ≡ (base + length l.ps) + length l.back =
      omega (arith, e, length-log log l.ps l.back l.split) in
    ap (insert_offset s.base_offset) (sort_offsets-bases ss a (base + length l.ps) l.back chain e')
    ∙ insert_offset-front s.base_offset (first_base ss a ∷ later_bases ss a) (
        bases-All ss a s.base_offset (base + length l.ps) l.back chain e' (omega (arith, l.starts)))

open_wal-eq :
    (disk : Disk) (max_bytes interval base : ℕ) (bases : List ℕ) (closed : List Segment)
    (a : Segment)
    → sort_offsets (base ∷ bases) ≡ base ∷ bases
    → open_segments disk max_bytes interval [] base bases ≡ some (ok (closed, a))
    → open_wal disk max_bytes interval (base ∷ bases)
      ≡ some (ok (opened max_bytes interval (closed, a)))
unfolding open_wal open_sorted
open_wal-eq disk max_bytes interval base bases closed a sorted e = rw (open_wal, sorted, e) refl

-- A log that is opened from the files that its segments left holds the same payloads at the same offsets, with the next offset behind the last of them. The files are those of all its segments, the segments have the size and the interval that the log is opened with, and the offsets fit 64 bits.
pub open_wal-Logs :
    (disk : Disk) (w : Wal) (base : ℕ) (log : List (List ℕ))
    → Logs w base log
    → base + length log < 2 ^ 64
    → All (OnDisk disk w.max_segment_bytes w.index_interval) w.closed
    → OnDisk disk w.max_segment_bytes w.index_interval w.active
    → (w' : Wal) × (open_wal disk w.max_segment_bytes w.index_interval
          (first_base w.closed w.active ∷ later_bases w.closed w.active)
        ≡ some (ok w'))
      × Logs w' base log
open_wal-Logs disk w base log h top ons on =
    let len = length-log log h.front h.ps h.split in
    let zero_eq : base ≡ base + length {A = List ℕ} [] = omega arith in
    let o =
      reopen_segments disk w.max_segment_bytes w.index_interval [] w.closed w.active base [] h.front
        h.ps h.config refl (subst (λ n. Chain w.closed n h.front) zero_eq h.chain) h.behind ons on
        (omega (arith, len)) in
    (
      opened w.max_segment_bytes w.index_interval (o.closed, o.active),
      open_wal-eq disk w.max_segment_bytes w.index_interval (first_base w.closed w.active)
          (later_bases w.closed w.active) o.closed o.active
          (sort_offsets-bases w.closed w.active base h.front h.chain h.behind.starts) o.loop,
      record {
        front = h.front;
        ps = h.ps;
        split = h.split;
        chain = o.chain;
        behind = o.behind;
        next = omega (arith, o.behind.serves.stores.next, o.behind.starts, len);
        same_max = o.same_max;
        config = h.config;
        opened = refl;
      },
    )

-- A log that is opened where there are no files is empty and starts at offset 0.
pub open_wal-empty :
    (disk : Disk) (max_bytes interval : ℕ)
    → IsConfig max_bytes interval
    → disk 0 ≡ some (record { log = []; index = [] })
    → (w : Wal) × (open_wal disk max_bytes interval [] ≡ some (ok w)) × Logs w 0 []
unfolding open_wal open_sorted sort_offsets
open_wal-empty disk max_bytes interval config d =
    let (s, e, starts, same_max, same_interval, served) =
      new_segment-fresh disk 0 max_bytes interval config (omega arith) d in
    (
      record (opened max_bytes interval ([], s)) { next_offset = 0 },
      rw (open_last disk max_bytes interval [] 0 s e) refl,
      record {
        front = [];
        ps = [];
        split = refl;
        chain = refl;
        behind = record { rest = zeros max_bytes; starts = starts; serves = served };
        next = refl;
        same_max = same_max;
        config = config;
        opened = refl;
      },
    )
