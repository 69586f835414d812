-- ===== src/Storage/Wal/Refine.antt =====
-- The log of storage/wal_segment.go as the list of the payloads that were appended.
use native.Mathlib.Decide.{dec_lt}
use aegis_log.Common.{
  ℕ, ◌+◌, ◌^◌, ◌≤◌, ◌<◌, ◌≡◌, ◌∙◌, sym, ap, arith, false, some, none, List, Option, [], ◌∷◌, ◌++◌,
  length, get_elem?, get_elem?-append_left, ok, err, le→leb, lt→leb, Result, Option-cases,
  get_elem?-missing, u32, inl, inr,
}
use aegis_log.Storage.Mapped.{length-zeros}
use aegis_log.Storage.Segment.{SegmentError, offset_not_found, read_at as segment_read_at}
use aegis_log.Storage.Segment.Frames.{IsSmall}
use aegis_log.Storage.Segment.Fetch.{read_at-outside}
use aegis_log.Storage.Wal.{Disk, Wal, append, read_at, read_closed}
use aegis_log.Storage.Wal.Chain.{Behind-read, read_closed-eq}
use aegis_log.Storage.Wal.Held.{
  Logs, length-log, append_active-Logs, room_behind, roll-Logs, written-some, append-stays,
  append-rolls, rolled_to,
}

-- An append of a payload that fits an empty segment returns the next offset and puts the payload behind the others, whether the log rolls to a new segment or not. A payload is at most 32 MB, the offset behind it fits 64 bits, and the files of a new segment can be made and do not exist before.
pub append-Logs :
    (disk : Disk) (w : Wal) (base : ℕ) (log : List (List ℕ)) (p : List ℕ)
    → Logs w base log
    → IsSmall p
    → base + length log + 1 < 2 ^ 64
    → 17 + length p ≤ w.max_segment_bytes
    → disk w.next_offset ≡ some (record { log = []; index = [] })
    → (w' : Wal) × (append disk w p ≡ some (w', ok (base + length log)))
      × Logs w' base (log ++ (p ∷ []))
append-Logs disk w base log p h small top whole d =
    let room = room_behind w base log h in
    let end = w.active.write_pos + (17 + length p) in
    let no_wrap : u32 (w.active.write_pos + u32 (17 + length p)) ≡ end =
      omega (arith, h.config.fits) in
    elim (dec_lt w.max_segment_bytes end) [
      | no fits ↦
          let (w', e, h') = append_active-Logs w base log p h small top (omega arith) in
          (
            w',
            append-stays disk w p h.opened (omega arith) ∙ e ∙ ap (λ o. some (w', ok o)) h.next,
            h',
          )
      | yes full ↦
          let some_payload = written-some w base log h (omega arith) in
          let (s, rolls, (rolled, blank)) = roll-Logs disk w base log h some_payload top d in
          let (w', e, h') =
            append_active-Logs (rolled_to w s) base log p rolled small top
              (omega (arith, ap length blank, length-zeros w.max_segment_bytes)) in
          (
            w',
            append-rolls disk w p s h.opened (omega arith) rolls
                ∙ e
                ∙ ap (λ o. some (w', ok o)) rolled.next,
            h',
          )
    ]

-- What a list of payloads answers at a place.
abbrev pub answer : Option (List ℕ) → Result SegmentError (List ℕ)
answer (some p) = ok p
answer none = err offset_not_found

read_at-active :
    (w : Wal) (offset : ℕ)
    → w.is_closed ≡ false
    → w.active.base_offset ≤ offset
    → read_at w offset ≡ segment_read_at w.active offset
unfolding read_at
read_at-active w offset opened le = ground (arith, opened, le→leb w.active.base_offset offset le)

read_at-closed :
    (w : Wal) (offset : ℕ)
    → w.is_closed ≡ false
    → offset < w.active.base_offset
    → read_at w offset ≡ read_closed w.closed (length w.closed) offset
unfolding read_at
read_at-closed w offset opened lt = ground (arith, opened, lt→leb w.active.base_offset offset lt)

read_at-found :
    (w : Wal) (base : ℕ) (log : List (List ℕ)) (k : ℕ) (p : List ℕ)
    → Logs w base log
    → base + length log < 2 ^ 64
    → get_elem? log k ≡ some p
    → read_at w (base + k) ≡ some (ok p)
read_at-found w base log k p h top e =
    let len = length-log log h.front h.ps h.split in
    let e' : get_elem? (h.front ++ h.ps) k ≡ some p = ap (λ t. get_elem? t k) (sym h.split) ∙ e in
    elim (dec_lt k (length h.front)) [
      | yes lt ↦
          read_at-closed w (base + k) h.opened (omega (arith, h.behind.starts))
          ∙ read_closed-eq w.closed base k h.front p h.chain (omega (arith, len))
              (sym (get_elem?-append_left h.front h.ps k lt) ∙ e')
      | no ge ↦
          read_at-active w (base + k) h.opened (omega (arith, h.behind.starts))
          ∙ Behind-read w.active base k h.front h.ps p h.behind (omega (arith, len)) (omega arith)
              e'
    ]

read_at-missing :
    (w : Wal) (base : ℕ) (log : List (List ℕ)) (k : ℕ)
    → Logs w base log
    → length log ≤ k
    → read_at w (base + k) ≡ some (err offset_not_found)
read_at-missing w base log k h out =
    let len = length-log log h.front h.ps h.split in
    read_at-active w (base + k) h.opened (omega (arith, h.behind.starts, len))
    ∙ read_at-outside w.active (base + k)
        (inr (omega (arith, h.behind.serves.stores.next, h.behind.starts, len)))

-- Reading at an offset from the first one on answers what the list of the appended payloads has at that place: the payload, across all segments and through their indexes, or that there is none.
pub read_at-Logs :
    (w : Wal) (base : ℕ) (log : List (List ℕ)) (k : ℕ)
    → Logs w base log
    → base + length log < 2 ^ 64
    → read_at w (base + k) ≡ some (answer (get_elem? log k))
read_at-Logs w base log k h top = elim (Option-cases (get_elem? log k)) [
  | inl missing ↦
      read_at-missing w base log k h (get_elem?-missing log k missing)
      ∙ ap (λ o. some (answer o)) (sym missing)
  | inr (p, e) ↦ read_at-found w base log k p h top e ∙ ap (λ o. some (answer o)) (sym e)
]
