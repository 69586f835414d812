-- ===== src/Storage/Wal/Tests.antt =====
-- Runs of the log on small segments.
use aegis_log.Common.{
  ℕ, zero, suc, ◌≤◌, ◌<◌, ◌≡◌, refl, arith, false, some, List, [], ◌∷◌, ◌++◌, ◌==◌, if◌then◌else◌,
  length, ok, take, get_elem?,
}
use aegis_log.Storage.Mapped.{zeros}
use aegis_log.Storage.Index.Content.{Entry, encode_entries}
use aegis_log.Storage.Segment.{Segment, read_at as segment_read_at}
use aegis_log.Storage.Segment.Frames.{wire, frame_bytes}
use aegis_log.Storage.Segment.Grow.{Stores}
use aegis_log.Storage.Segment.Fetch.{Points, read_at-eq}
use aegis_log.Storage.Segment.Marks.{Serves}
use aegis_log.Storage.Wal.{Wal, Disk, append, read_at, open_wal}
use aegis_log.Storage.Wal.Held.{Logs}
use aegis_log.Storage.Wal.Refine.{append-Logs, read_at-Logs, answer}
use aegis_log.Storage.Wal.Restart.{open_wal-Logs}

abbrev hello : List ℕ
hello = 1 ∷ 2 ∷ []

-- A segment of 48 bytes from offset 7 that holds one message of two bytes.
abbrev one_message : Segment
one_message = record {
  base_offset = 7;
  next_offset = 8;
  bytes = wire 7 (hello ∷ []) ++ zeros 29;
  index = record {
    bytes = encode_entries ((0, 0) ∷ []) ++ zeros 120;
    entry_count = 1;
    max_entries = 16;
  };
  write_pos = 19;
  max_bytes = 48;
  last_index_byte = 0;
  index_interval = 4096;
  is_closed = false;
}

one_message-Stores : Stores one_message (hello ∷ []) (zeros 29)
unfolding zeros frame_bytes
one_message-Stores = record {
  layout = refl;
  at_end = refl;
  next = refl;
  range = (refl, omega arith);
  index_room = omega arith;
}

one_message-Points : Points 7 (hello ∷ []) one_message.index
unfolding zeros
one_message-Points = record {
  entries = (0, 0) ∷ [];
  spare = zeros 120;
  blank = refl;
  held = record { layout = refl; count = refl; room = refl; small = small };
  sound = sound;
}
  where
    small :
        (i rel pos : ℕ)
        → get_elem? {A = Entry} ((0, 0) ∷ []) i ≡ some (rel, pos)
        → (rel < 4294967296) × (pos < 4294967296)
    small zero rel pos e = ground arith
    small (suc i) rel pos e = cc

    sound :
        (i rel pos : ℕ)
        → get_elem? {A = Entry} ((0, 0) ∷ []) i ≡ some (rel, pos)
        → (rel ≤ 1) × (pos ≡ length (wire 7 (take rel (hello ∷ []))))
    sound zero zero pos e = (omega arith, cc)
    sound zero (suc rel) pos e = cc
    sound (suc i) rel pos e = cc

one_message-Serves : Serves one_message (hello ∷ []) (zeros 29)
unfolding zeros
one_message-Serves = record {
  stores = one_message-Stores;
  points = one_message-Points;
  small = (omega arith, tt);
  opened = refl;
  blank = refl;
  sized = refl;
}

abbrev one_log : Wal
one_log = record {
  max_segment_bytes = 48;
  index_interval = 4096;
  active = one_message;
  closed = [];
  next_offset = 8;
  is_closed = false;
}

one_log-Logs : Logs one_log 7 (hello ∷ [])
one_log-Logs = record {
  front = [];
  ps = hello ∷ [];
  split = refl;
  chain = refl;
  behind = record { rest = zeros 29; starts = refl; serves = one_message-Serves };
  next = refl;
  same_max = refl;
  config = record { fits = omega arith; nonzero = λ e. absurd (omega arith) };
  opened = refl;
}

-- The files of the log, and new ones for any other segment.
abbrev one_disk : Disk
one_disk base =
    if base == 7
    then some (record { log = one_message.bytes; index = one_message.index.bytes })
    else some (record { log = []; index = [] })

read_at-eq_example : segment_read_at one_message 7 ≡ some (ok hello)
read_at-eq_example =
    read_at-eq one_message (hello ∷ []) (zeros 29) 0 hello one_message-Stores one_message-Points
      (omega arith, tt) (omega arith) refl

-- 31 bytes do not fit behind the 19 that are written, so the log rolls.
append-Logs_example :
    (w' : Wal) × (append one_disk one_log (zeros 20) ≡ some (w', ok 8))
    × Logs w' 7 (hello ∷ zeros 20 ∷ [])
unfolding zeros
append-Logs_example =
    append-Logs one_disk one_log 7 (hello ∷ []) (zeros 20) one_log-Logs (omega arith) (omega arith)
      (omega arith) refl

read_at-Logs_example : read_at one_log 7 ≡ some (answer (get_elem? (hello ∷ []) 0))
read_at-Logs_example = read_at-Logs one_log 7 (hello ∷ []) 0 one_log-Logs (omega arith)

open_wal-Logs_example :
    (w' : Wal) × (open_wal one_disk 48 4096 (7 ∷ []) ≡ some (ok w')) × Logs w' 7 (hello ∷ [])
open_wal-Logs_example =
    open_wal-Logs one_disk one_log 7 (hello ∷ []) one_log-Logs (omega arith) tt
      (record { files = refl; same_max = refl; same_interval = refl })
