-- ===== src/Storage/Wal/Held.antt =====
-- The payloads that a log of storage/wal_segment.go holds, and what a roll and an append leave.
use mathlib.Core.List.{append_assoc, append-nil}
use mathlib.Core.Path.{subst}
use native.Mathlib.Decide.{dec_lt}
use aegis_log.Common.{
  ℕ, ◌+◌, ◌^◌, ◌≤◌, ◌<◌, ◌≡◌, ◌∙◌, refl, sym, ap, arith, false, some, none, List, [], ◌∷◌, ◌++◌,
  length, drop, length-append, ok, lt→ltb, le→ltb, u32, u64,
}
use aegis_log.Storage.Mapped.{zeros}
use aegis_log.Storage.Segment.{Segment, append as segment_append}
use aegis_log.Storage.Segment.Frames.{IsSmall, wire}
use aegis_log.Storage.Segment.Marks.{append-Serves}
use aegis_log.Storage.Wal.{Disk, Wal, new_segment, roll_active_segment, append_active, append}
use aegis_log.Storage.Wal.Fresh.{IsConfig, new_segment-fresh}
use aegis_log.Storage.Wal.Chain.{Chain, Behind, Chain-append}

-- The log holds the payloads `log`, the first of them at the offset `base`.
pub record Logs (w : Wal) (base : ℕ) (log : List (List ℕ)) : Type 0 where
  pub front : List (List ℕ)
  pub ps : List (List ℕ)
  pub split : log ≡ front ++ ps
  pub chain : Chain w.closed base front
  pub behind : Behind w.active base front ps
  pub next : w.next_offset ≡ base + length log
  pub same_max : w.active.max_bytes ≡ w.max_segment_bytes
  pub config : IsConfig w.max_segment_bytes w.index_interval
  pub opened : w.is_closed ≡ false

pub length-log :
    (log front ps : List (List ℕ)) → log ≡ front ++ ps → length log ≡ length front + length ps
length-log log front ps e = ap length e ∙ length-append front ps

-- The segment that is active holds its own next offset.
next-active :
    (w : Wal) (base : ℕ) (log : List (List ℕ)) (h : Logs w base log)
    → w.active.next_offset ≡ w.next_offset
next-active w base log h = omega (
  arith,
  h.behind.serves.stores.next,
  h.behind.starts,
  h.next,
  length-log log h.front h.ps h.split,
)

append_active-eq :
    (w : Wal) (s' : Segment) (p : List ℕ) (pos : ℕ)
    → segment_append w.active w.next_offset p ≡ some (ok (s', pos))
    → append_active w p
      ≡ some (record w { active = s'; next_offset = u64 (w.next_offset + 1) }, ok w.next_offset)
unfolding append_active
append_active-eq w s' p pos e = rw e refl

-- The room that an active segment has behind its frames.
pub room_behind :
    (w : Wal) (base : ℕ) (log : List (List ℕ)) (h : Logs w base log)
    → w.active.write_pos + length h.behind.rest ≡ w.max_segment_bytes
room_behind w base log h =
    let held = h.behind.serves.stores in
    omega (
      arith,
      held.at_end,
      held.range.0,
      h.same_max,
      ap length held.layout,
      length-append (wire w.active.base_offset h.ps) h.behind.rest,
    )

-- An append to an active segment with room.
pub append_active-Logs :
    (w : Wal) (base : ℕ) (log : List (List ℕ)) (p : List ℕ) (h : Logs w base log)
    → IsSmall p
    → base + length log + 1 < 2 ^ 64
    → 17 + length p ≤ length h.behind.rest
    → (w' : Wal) × (append_active w p ≡ some (w', ok w.next_offset))
      × Logs w' base (log ++ (p ∷ []))
append_active-Logs w base log p h small top fits =
    let served = h.behind.serves in
    let len = length-log log h.front h.ps h.split in
    let same = next-active w base log h in
    let (s', e, same_base, same_max, same_interval, served') =
      append-Serves w.active h.ps h.behind.rest p served small (omega (arith, h.behind.starts, len))
        fits in
    let e' : segment_append w.active w.next_offset p ≡ some (ok (s', w.active.write_pos)) =
      ap (λ o. segment_append w.active o p) (sym same) ∙ e in
    (
      record w { active = s'; next_offset = u64 (w.next_offset + 1) },
      append_active-eq w s' p w.active.write_pos e',
      record {
        front = h.front;
        ps = h.ps ++ (p ∷ []);
        split = ap (λ t. t ++ (p ∷ [])) h.split ∙ append_assoc h.front h.ps (p ∷ []);
        chain = h.chain;
        behind = record {
          rest = drop (17 + length p) h.behind.rest;
          starts = same_base ∙ h.behind.starts;
          serves = served';
        };
        next = omega (arith, h.next, length-append log (p ∷ []));
        same_max = same_max ∙ h.same_max;
        config = h.config;
        opened = h.opened;
      },
    )

-- What a log is after it has rolled to a new segment.
pub rolled_to : Wal → Segment → Wal
rolled_to w s = record w { closed = w.closed ++ (w.active ∷ []); active = s }

roll-eq :
    (disk : Disk) (w : Wal) (s : Segment)
    → new_segment disk w.next_offset w.max_segment_bytes w.index_interval ≡ some (ok s)
    → roll_active_segment disk w ≡ some (rolled_to w s, none)
unfolding roll_active_segment rolled_to
roll-eq disk w s e = rw e refl

-- Rolling to new files keeps the payloads, and leaves a whole segment of room.
pub roll-Logs :
    (disk : Disk) (w : Wal) (base : ℕ) (log : List (List ℕ)) (h : Logs w base log)
    → 0 < length h.ps
    → base + length log + 1 < 2 ^ 64
    → disk w.next_offset ≡ some (record { log = []; index = [] })
    → (s : Segment) × (roll_active_segment disk w ≡ some (rolled_to w s, none))
      × ((h' : Logs (rolled_to w s) base log) × (h'.behind.rest ≡ zeros w.max_segment_bytes))
unfolding rolled_to
roll-Logs disk w base log h some_payload top d =
    let (s, e, starts, same_max, same_interval, served) =
      new_segment-fresh disk w.next_offset w.max_segment_bytes w.index_interval h.config
        (omega (arith, h.next)) d in
    (
      s,
      roll-eq disk w s e,
      (
        record {
          front = log;
          ps = [];
          split = sym (append-nil log);
          chain =
              subst (Chain (w.closed ++ (w.active ∷ [])) base) (sym h.split)
                (Chain-append w.closed w.active base h.front h.ps h.chain h.behind some_payload);
          behind = record {
            rest = zeros w.max_segment_bytes;
            starts = starts ∙ h.next;
            serves = served;
          };
          next = h.next;
          same_max = same_max;
          config = h.config;
          opened = h.opened;
        },
        refl,
      ),
    )

no_frames : (base : ℕ) (ps : List (List ℕ)) → length ps ≡ 0 → length (wire base ps) ≡ 0
no_frames base [] e = refl
no_frames base (p ∷ ps) e = absurd (omega arith)

-- A segment with bytes written has a payload.
pub written-some :
    (w : Wal) (base : ℕ) (log : List (List ℕ)) (h : Logs w base log)
    → 0 < w.active.write_pos
    → 0 < length h.ps
written-some w base log h written = elim (dec_lt 0 (length h.ps)) [
  | yes more ↦ more
  | no none_left ↦ absurd (
      omega
        (arith, h.behind.serves.stores.at_end, no_frames w.active.base_offset h.ps (omega arith)))
]

pub append-stays :
    (disk : Disk) (w : Wal) (p : List ℕ)
    → w.is_closed ≡ false
    → u32 (w.active.write_pos + u32 (17 + length p)) ≤ w.max_segment_bytes
    → append disk w p ≡ append_active w p
unfolding append
append-stays disk w p opened fits = ground (
  arith,
  opened,
  le→ltb w.max_segment_bytes (u32 (w.active.write_pos + u32 (17 + length p))) fits,
)

pub append-rolls :
    (disk : Disk) (w : Wal) (p : List ℕ) (s : Segment)
    → w.is_closed ≡ false
    → w.max_segment_bytes < u32 (w.active.write_pos + u32 (17 + length p))
    → roll_active_segment disk w ≡ some (rolled_to w s, none)
    → append disk w p ≡ append_active (rolled_to w s) p
unfolding append
append-rolls disk w p s opened full e = ground (
  arith,
  opened,
  lt→ltb w.max_segment_bytes (u32 (w.active.write_pos + u32 (17 + length p))) full,
  e,
)
