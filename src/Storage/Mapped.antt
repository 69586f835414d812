-- ===== src/Storage/Mapped.antt =====
-- Reads and writes in a memory-mapped slice (storage/index.go, storage/wal_segment.go). A range out of bounds is a Go panic, `none`.
use aegis_log.Common.{
  [], ◌∷◌, ℕ, ◌+◌, ◌-◌, ◌≤◌, ◌≡◌, arith, Option, some, none, List, ◌++◌, leb, if◌then◌else◌, length,
  take, drop, take-append_eq, drop-append_eq, length-append, drop-append_at, length-drop, zero, suc,
  refl, sym, ap, ◌∙◌,
}

-- `copy(data[at:at+len(bytes)], bytes)`
unfoldable pub write_at : List ℕ → ℕ → List ℕ → Option (List ℕ)
write_at data' at bytes =
    if leb (at + length bytes) (length data')
    then some (take at data' ++ (bytes ++ drop (at + length bytes) data'))
    else none

-- `data[from:to]`
unfoldable pub range : List ℕ → ℕ → ℕ → Option (List ℕ)
range data' from to =
    if leb from to
    then (if leb to (length data') then some (take (to - from) (drop from data')) else none)
    else none

-- A write behind a prefix replaces the bytes there.
pub write_at-append :
    (pre rest bytes : List ℕ) (at : ℕ)
    → at ≡ length pre
    → length bytes ≤ length rest
    → write_at (pre ++ rest) at bytes ≡ some (pre ++ (bytes ++ drop (length bytes) rest))
unfolding write_at
write_at-append pre rest bytes at e h = ground (
  arith,
  length-append pre rest,
  take-append_eq at pre rest e,
  drop-append_at at (length bytes) pre rest e,
)

-- A range behind a prefix is that part of the rest.
pub range-append :
    (pre mid rest : List ℕ) (from to : ℕ)
    → from ≡ length pre
    → to ≡ length pre + length mid
    → range (pre ++ (mid ++ rest)) from to ≡ some mid
unfolding range
range-append pre mid rest from to e f = ground (
  arith,
  length-append pre (mid ++ rest),
  length-append mid rest,
  drop-append_eq from pre (mid ++ rest) e,
  take-append_eq (to - from) mid rest (omega arith),
)

-- What a file is made longer by.
unfoldable pub zeros : ℕ → List ℕ
zeros zero = []
zeros (suc n) = 0 ∷ zeros n

pub length-zeros : (n : ℕ) → length (zeros n) ≡ n
unfolding zeros
length-zeros zero = refl
length-zeros (suc n) = omega (arith, length-zeros n)

drop-zeros : (k n : ℕ) → drop k (zeros n) ≡ zeros (n - k)
unfolding zeros
drop-zeros zero n = ap zeros (omega arith)
drop-zeros (suc k) zero = let e : 0 ≡ 0 - suc k = omega arith in ap zeros e
drop-zeros (suc k) (suc n) =
    let e : n - k ≡ suc n - suc k = omega arith in drop-zeros k n ∙ ap zeros e

-- Nothing but zeros.
abbrev pub IsBlank : List ℕ → Type 0
IsBlank bytes = bytes ≡ zeros (length bytes)

pub zeros-IsBlank : (n : ℕ) → IsBlank (zeros n)
zeros-IsBlank n = ap zeros (sym (length-zeros n))

pub IsBlank-drop : (k : ℕ) (bytes : List ℕ) → IsBlank bytes → IsBlank (drop k bytes)
IsBlank-drop k bytes blank =
    ap (drop k) blank ∙ drop-zeros k (length bytes) ∙ ap zeros (sym (length-drop k bytes))
