-- ===== src/Storage/Index.antt =====
-- storage/index.go: the sparse index over its mapped bytes.
pub mod Search
pub mod Content
pub mod Floor
pub mod Grow
pub mod Sound
use aegis_log.Common.{
  ℕ, zero, suc, ◌+◌, ◌-◌, ◌*◌, ◌/◌, ltb, leb, ◌==◌, if◌then◌else◌, Bool, true, false, Option, some,
  none, List, be32, read_be, Result, ok, err,
}
use aegis_log.Common.Faults.{◌>>=◌}
use aegis_log.Storage.Mapped.{write_at, range}

abbrev pub index_entry_size : ℕ
index_entry_size = 8

-- An open index: `bytes` is `mmap.data`.
pub record SparseIndex : Type 0 where
  pub bytes : List ℕ
  pub entry_count : ℕ
  pub max_entries : ℕ

pub data IndexError : Type 0 where
  index_full : ℕ → IndexError

-- `binary.BigEndian.Uint32(data[at:at+4])`
unfoldable pub uint32_at : List ℕ → ℕ → Option ℕ
uint32_at bytes at = range bytes at (at + 4) >>= λ four. some (read_be 0 four)

-- The index after an append, or the error and the index as it was.
unfoldable pub append : SparseIndex → ℕ → ℕ → Option (Result IndexError SparseIndex)
append idx rel_offset physical_pos =
    let at = idx.entry_count * index_entry_size in
    if leb idx.max_entries idx.entry_count
    then some (err (index_full idx.entry_count))
    else (write_at idx.bytes at (be32 rel_offset) >>= λ bytes.
        write_at bytes (at + 4) (be32 physical_pos) >>= λ bytes'.
        some (ok (record idx { bytes = bytes'; entry_count = idx.entry_count + 1 })))

-- `sort.Search`: the loop over the range from `i` to `j`, on fuel. The test may panic.
unfoldable pub search_loop : ℕ → (ℕ → Option Bool) → ℕ → ℕ → Option ℕ
search_loop zero test i j = some i
search_loop (suc fuel) test i j =
    let h = (i + j) / 2 in
    elim (ltb i j) [
      | false ↦ some i
      | true ↦ test h >>= λ above. elim above [
        | true ↦ search_loop fuel test i h
        | false ↦ search_loop fuel test (h + 1) j
      ]
    ]

-- Each round shortens the range, so its length is enough.
unfoldable pub search_first : ℕ → (ℕ → Option Bool) → Option ℕ
search_first n test = search_loop n test 0 n

-- The test of `Lookup`: the entry lies behind the target.
unfoldable pub entry_above : SparseIndex → ℕ → ℕ → Option Bool
entry_above idx target i =
    uint32_at idx.bytes (i * index_entry_size) >>= λ entry_rel. some (ltb target entry_rel)

-- `Lookup` when `i` entries lie at or before the target.
unfoldable pub lookup_at : SparseIndex → ℕ → ℕ → Option (ℕ × Bool)
lookup_at idx target i =
    if i == 0
    then (uint32_at idx.bytes 0 >>= λ first.
        if leb first target
        then (uint32_at idx.bytes 4 >>= λ pos. some (pos, true))
        else some (0, false))
    else (uint32_at idx.bytes ((i - 1) * index_entry_size + 4) >>= λ pos. some (pos, true))

unfoldable pub lookup : SparseIndex → ℕ → Option (ℕ × Bool)
lookup idx target =
    if idx.entry_count == 0
    then some (0, false)
    else (search_first idx.entry_count (entry_above idx target) >>= λ i. lookup_at idx target i)
