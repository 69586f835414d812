-- ===== src/Server/Latency.antt =====
-- The latency tracker of cmd/node/main.go. A sample is a value of any type with a test for Go's `>`
-- between two of them: the code has float64.
pub mod Window
mod Shift
pub mod Sorted
mod Tests
use aegis_log.Common.{
  ℕ, zero, suc, ◌+◌, ◌-◌, ◌/◌, ◌%◌, ◌*◌, ◌^◌, ltb, ◌==◌, ◌&&◌, ◌||◌, Bool, true, false, leb,
  if◌then◌else◌, Option, none, some, List, [], ◌∷◌, ◌++◌, length, get_elem?, drop,
}
use aegis_log.Common.Faults.{◌>>=◌}

pub record LatencyTracker {ℓ} (A : Type ℓ) : Type ℓ where
  pub samples : List A
  pub max_len : ℕ

-- How many low bits a number has above the 53 of a float64; `fuel` is at least the number of its bits.
abbrev excess : ℕ → ℕ → ℕ
excess zero a = 0
excess (suc fuel) a = if ltb a (2 ^ 53) then 0 else suc (excess fuel (a / 2))

-- A number to the nearest one of 53 bits behind `d = 2 ^ e`, and to the even one of two.
abbrev nearest : ℕ → ℕ → ℕ
nearest d a =
    let q = a / d in
    let r = a % d in if ltb (2 * r) d || (2 * r == d && q % 2 == 0) then q * d else (q + 1) * d

abbrev to_float : ℕ → ℕ
to_float a = nearest (2 ^ excess 128 a) a

-- `int(float64(n) * 0.99)`: the constant is 8917127262193582 / 2 ^ 53, and the exact product of the
-- two float64 is rounded to 53 bits before it is cut to an int.
unfoldable pub p99_index : ℕ → ℕ
p99_index n = to_float (to_float n * 8917127262193582) / 2 ^ 53

module _ {ℓ} {A : Type ℓ} where
  abbrev pub new_latency_tracker : ℕ → LatencyTracker A
  new_latency_tracker max_len = record { samples = []; max_len = max_len }

  -- `lt.samples[1:]`; of no samples it panics.
  unfoldable pub without_oldest : List A → Option (List A)
  without_oldest [] = none
  without_oldest (x ∷ xs) = some xs

  -- `Record`
  unfoldable pub record_sample : LatencyTracker A → A → Option (LatencyTracker A)
  unfolding without_oldest
  record_sample t x =
      (if leb t.max_len (length t.samples) then without_oldest t.samples else some t.samples)
      >>= λ kept. some (record t { samples = kept ++ (x ∷ []) })

  -- `sorted[i] = x`; out of range it panics.
  unfoldable pub write : ℕ → A → List A → Option (List A)
  write i x [] = none
  write zero x (y ∷ ys) = some (x ∷ ys)
  write (suc i) x (y ∷ ys) = write i x ys >>= λ zs. some (y ∷ zs)

  module _ (above : A → A → Bool) where
    -- The inner loop and the write behind it; the argument is `j + 1`.
    unfoldable pub shift : A → ℕ → List A → Option (List A)
    unfolding write
    shift key zero xs = write zero key xs
    shift key (suc j) xs = get_elem? xs j >>= λ x. elim (above x key) [
      | true ↦ write (suc j) x xs >>= λ ys. shift key j ys
      | false ↦ write (suc j) key xs
    ]

    -- The outer loop from `i` on, with `n` rounds to go.
    unfoldable pub sort_from : ℕ → ℕ → List A → Option (List A)
    unfolding shift
    sort_from i zero xs = some xs
    sort_from i (suc n) xs = do key ← get_elem? xs i; ys ← shift key i xs; sort_from (i + 1) n ys

    -- `Percentiles`, with the values for no samples.
    unfoldable percentiles_of : A × A → List A → Option (A × A)
    unfolding sort_from
    percentiles_of baseline [] = some baseline
    percentiles_of baseline (x ∷ xs) =
        let n = suc (length xs) in
        sort_from 1 (n - 1) (x ∷ xs) >>= λ sorted. get_elem? sorted (n / 2) >>= λ p50.
        get_elem? sorted (if leb n (p99_index n) then n - 1 else p99_index n) >>= λ p99.
        some (p50, p99)

    unfoldable pub percentiles : A × A → LatencyTracker A → Option (A × A)
    unfolding percentiles_of
    percentiles baseline t = percentiles_of baseline t.samples
