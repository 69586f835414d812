-- ===== src/Storage/Tests.antt =====
-- Runs of the storage engine on small data.
use aegis_log.Common.{
  false, length, inr, ℕ, zero, suc, ◌^◌, ◌<◌, ◌≡◌, refl, arith, Bool, true, some, List, [], ◌∷◌,
  ◌++◌, get_elem?, ok, drop,
}
use aegis_log.Storage.Mapped.{range}
use aegis_log.Storage.Segment.{Segment, recover}
use aegis_log.Storage.Segment.{append as append_frame}
use aegis_log.Storage.Segment.Frames.{wire, frame_bytes}
use aegis_log.Storage.Segment.Recovery.{recover-eq}
use aegis_log.Storage.Segment.Grow.{Stores, append-Stores}
use aegis_log.Storage.Segment.Reopen.{reopened, restored, append_survives}
use aegis_log.Storage.Index.{
  SparseIndex, append, lookup, search_first, search_loop, entry_above, uint32_at, lookup_at,
}
use aegis_log.Storage.Index.Content.{Entry, encode_entries, Holds}
use aegis_log.Storage.Index.Floor.{IsFloor, IsSorted, lookup-IsFloor}
use aegis_log.Storage.Index.Grow.{append-Holds}

abbrev two_entries : List Entry
two_entries = (0, 0) ∷ (5, 300) ∷ []

abbrev free : List ℕ
free = 0 ∷ 0 ∷ 0 ∷ 0 ∷ 0 ∷ 0 ∷ 0 ∷ 0 ∷ []

abbrev index_of_two : SparseIndex
index_of_two = record {
  bytes = encode_entries two_entries ++ free;
  entry_count = 2;
  max_entries = 3;
}

index_of_two-Holds : Holds index_of_two two_entries free
index_of_two-Holds = record { layout = refl; count = refl; room = refl; small = small }
  where
    small :
        (i rel pos : ℕ) → get_elem? two_entries i ≡ some (rel, pos) → rel < 2 ^ 32 × pos < 2 ^ 32
    small zero rel pos e = ground arith
    small (suc zero) rel pos e = ground arith
    small (suc (suc i)) rel pos e = cc

two_entries-IsSorted : IsSorted two_entries
two_entries-IsSorted zero zero r p r' p' le e f = ground arith
two_entries-IsSorted zero (suc zero) r p r' p' le e f = ground arith
two_entries-IsSorted (suc zero) zero r p r' p' le e f = absurd (omega arith)
two_entries-IsSorted (suc zero) (suc zero) r p r' p' le e f = ground arith
two_entries-IsSorted zero (suc (suc j)) r p r' p' le e f = cc
two_entries-IsSorted (suc zero) (suc (suc j)) r p r' p' le e f = cc
two_entries-IsSorted (suc (suc i)) j r p r' p' le e f = cc

lookup_7 : lookup index_of_two 7 ≡ some (300, true)
unfolding lookup search_first search_loop entry_above uint32_at range lookup_at
lookup_7 = refl

lookup-IsFloor_example : (a : ℕ × Bool) × (lookup index_of_two 4 ≡ some a) × IsFloor two_entries 4 a
lookup-IsFloor_example =
    lookup-IsFloor index_of_two two_entries free index_of_two-Holds 4 two_entries-IsSorted

append-Holds_example :
    (idx' : SparseIndex) × (append index_of_two 9 600 ≡ some (ok idx'))
    × (idx'.max_entries ≡ 3)
    × Holds idx' (two_entries ++ ((9, 600) ∷ [])) (drop 8 free)
append-Holds_example =
    append-Holds index_of_two two_entries free index_of_two-Holds 9 600 (omega arith) (omega arith)
      (omega arith)

abbrev no_bytes : ℕ → List ℕ
no_bytes zero = []
no_bytes (suc n) = 0 ∷ no_bytes n

-- A segment of 48 bytes from offset 7, with an index of one entry.
abbrev empty_segment : Segment
empty_segment = record {
  base_offset = 7;
  next_offset = 7;
  bytes = no_bytes 48;
  index = record { bytes = no_bytes 8; entry_count = 0; max_entries = 1 };
  write_pos = 0;
  max_bytes = 48;
  last_index_byte = 0;
  index_interval = 4096;
  is_closed = false;
}

empty_segment-Stores : Stores empty_segment [] (no_bytes 48)
empty_segment-Stores = record {
  layout = refl;
  at_end = refl;
  next = refl;
  range = (refl, omega arith);
  index_room = omega arith;
}

append-Stores_example :
    (s' : Segment) × (append_frame empty_segment 7 (1 ∷ 2 ∷ []) ≡ some (ok (s', 0)))
    × (s'.base_offset ≡ 7)
    × Stores s' ((1 ∷ 2 ∷ []) ∷ []) (drop 19 (no_bytes 48))
append-Stores_example =
    append-Stores empty_segment [] (no_bytes 48) (1 ∷ 2 ∷ []) empty_segment-Stores refl
      (omega arith) (omega arith) (omega arith)

append_survives_example :
    (s' : Segment) × (append_frame empty_segment 7 (1 ∷ 2 ∷ []) ≡ some (ok (s', 0)))
    × (recover (reopened s' empty_segment.index) ≡ some (restored s' empty_segment.index))
append_survives_example =
    append_survives empty_segment empty_segment.index [] (no_bytes 48) (1 ∷ 2 ∷ [])
      empty_segment-Stores tt refl (omega arith) (omega arith) (omega arith)
      (inr (0, refl, (λ e. absurd (omega arith))))

-- The bytes of one message with two bytes, and free ones.
abbrev one_frame : Segment
one_frame = record empty_segment { bytes = wire 7 ((1 ∷ 2 ∷ []) ∷ []) ++ no_bytes 29 }

recover-eq_example :
    recover one_frame
    ≡ some (record one_frame { write_pos = length (wire 7 ((1 ∷ 2 ∷ []) ∷ [])); next_offset = 8 })
unfolding frame_bytes
recover-eq_example =
    recover-eq one_frame ((1 ∷ 2 ∷ []) ∷ []) (no_bytes 29) refl refl (refl, omega arith)
      (omega arith, tt) (omega arith) (inr (0, refl, (λ e. absurd (omega arith))))
