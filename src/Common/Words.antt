-- ===== src/Common/Words.antt =====
-- Go's fixed-width unsigned integers as native numbers, and `binary.BigEndian`.
use Prim.Native.Nat.{ℕ, ◌+◌, ◌-◌, ◌*◌, ◌/◌, ◌%◌, ◌^◌, ◌<◌}
use mathlib.Core.Path.{◌≡◌}
use mathlib.Core.List.{List, [], ◌∷◌, ◌++◌}
use native.Mathlib.Omega.{arith}

abbrev pub IsByte : ℕ → Type 0
IsByte b = b < 256

abbrev pub IsU32 : ℕ → Type 0
IsU32 v = v < 2 ^ 32

abbrev pub IsU64 : ℕ → Type 0
IsU64 v = v < 2 ^ 64

-- Conversion to a width, and the result of an operation at that width, drop the high bits.
abbrev pub u32 : ℕ → ℕ
u32 v = v % 2 ^ 32

abbrev pub u64 : ℕ → ℕ
u64 v = v % 2 ^ 64

-- uint64 subtraction wraps; `-` on ℕ stops at 0.
abbrev pub sub64 : ℕ → ℕ → ℕ
sub64 a b = (a + 2 ^ 64 - b) % 2 ^ 64

abbrev pub sub32 : ℕ → ℕ → ℕ
sub32 a b = (a + 2 ^ 32 - b) % 2 ^ 32

-- What `PutUint32` and `PutUint64` write.
abbrev pub be32 : ℕ → List ℕ
be32 v = v / 2 ^ 24 % 256 ∷ v / 2 ^ 16 % 256 ∷ v / 2 ^ 8 % 256 ∷ v % 256 ∷ []

abbrev pub be64 : ℕ → List ℕ
be64 v = be32 (v / 2 ^ 32) ++ be32 (v % 2 ^ 32)

-- `Uint32` and `Uint64` read as many bytes as they are given.
abbrev pub read_be : ℕ → List ℕ → ℕ
read_be acc [] = acc
read_be acc (b ∷ bs) = read_be (acc * 256 + b) bs

pub read_be-be32 : (v : ℕ) → v < 2 ^ 32 → read_be 0 (be32 v) ≡ v
read_be-be32 v h = omega arith

pub read_be-be32_from : (a v : ℕ) → v < 2 ^ 32 → read_be a (be32 v) ≡ a * 2 ^ 32 + v
read_be-be32_from a v h = omega arith

pub read_be-be64 : (v : ℕ) → v < 2 ^ 64 → read_be 0 (be64 v) ≡ v
read_be-be64 v h = omega (
  arith,
  read_be-be32 (v / 2 ^ 32) (omega arith),
  read_be-be32_from (v / 2 ^ 32) (v % 2 ^ 32) (omega arith),
)
