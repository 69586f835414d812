-- ===== src/Server/Latency/Tests.antt =====
-- Runs of the latency tracker of cmd/node/main.go on whole microseconds.
use aegis_log.Common.{ℕ, ◌+◌, ◌^◌, ◌≤◌, ◌≡◌, refl, arith, Bool, some, [], ◌∷◌, ltb, length}
use aegis_log.Server.Latency.{
  p99_index, LatencyTracker, new_latency_tracker, percentiles, sort_from, shift, write,
}
use aegis_log.Server.Latency.Window.{record_all, record-window}
use aegis_log.Server.Latency.Sorted.{IsPercentiles, percentiles-IsPercentiles}

abbrev above : ℕ → ℕ → Bool
above x y = ltb y x

abbrev tracker : LatencyTracker ℕ
tracker = record { samples = 700 ∷ 300 ∷ 900 ∷ 300 ∷ []; max_len = 60 }

p99_runs : (p99_index 60 ≡ 59) × (p99_index 100 ≡ 99) × (p99_index (2 ^ 53 + 1) ≡ 8917127262193582)
unfolding p99_index
p99_runs = (refl, refl, refl)

sorted_run : sort_from above 1 3 tracker.samples ≡ some (300 ∷ 300 ∷ 700 ∷ 900 ∷ [])
unfolding sort_from shift write
sorted_run = refl

percentiles-IsPercentiles_example :
    (p50 : ℕ) × (p99 : ℕ) × (percentiles above (118, 342) tracker ≡ some (p50, p99))
    × IsPercentiles above tracker.samples 3 p50 p99
percentiles-IsPercentiles_example =
    percentiles-IsPercentiles above (λ x y h. ground arith) (λ x y z h k. ground arith) (118, 342)
      tracker (omega arith) (omega arith)

record-window_example :
    (t : LatencyTracker ℕ) × (record_all (new_latency_tracker 2) (5 ∷ 6 ∷ 7 ∷ []) ≡ some t)
    × (t.samples ≡ 6 ∷ 7 ∷ [])
    × (length t.samples ≤ 2)
record-window_example = record-window 2 (5 ∷ 6 ∷ 7 ∷ []) (omega arith)
