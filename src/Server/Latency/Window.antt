-- ===== src/Server/Latency/Window.antt =====
-- The samples that the latency tracker of cmd/node/main.go keeps.
use aegis_log.Common.{
  ℕ, zero, suc, true, false, drop_all, ◌-◌, ◌≤◌, ◌<◌, ◌≡◌, refl, sym, ap, ◌∙◌, arith, Option, some,
  List, [], ◌∷◌, ◌++◌, length, drop, length-drop, length-append, leb,
}
use aegis_log.Common.Faults.{◌>>=◌}
use aegis_log.Server.Latency.{LatencyTracker, new_latency_tracker, without_oldest, record_sample}
use native.Mathlib.Decide.{dec_le}
use mathlib.Core.List.{append_assoc, append-nil}

module _ {ℓ} {A : Type ℓ} where
  -- A call for each duration, in order.
  unfoldable pub record_all : LatencyTracker A → List A → Option (LatencyTracker A)
  record_all t [] = some t
  record_all t (x ∷ xs) = record_sample t x >>= λ u. record_all u xs

  drop-snoc :
      (n : ℕ) (xs : List A) (x : A)
      → n ≤ length xs
      → drop n (xs ++ (x ∷ [])) ≡ drop n xs ++ (x ∷ [])
  drop-snoc zero xs x h = refl
  drop-snoc (suc n) [] x h = absurd (omega arith)
  drop-snoc (suc n) (y ∷ ys) x h = drop-snoc n ys x (omega arith)

  without_oldest-drop :
      (n : ℕ) (xs : List A) → n < length xs → without_oldest (drop n xs) ≡ some (drop (suc n) xs)
  unfolding without_oldest
  without_oldest-drop n [] h = absurd (omega arith)
  without_oldest-drop zero (x ∷ xs) h = refl
  without_oldest-drop (suc n) (x ∷ xs) h = without_oldest-drop n xs (omega arith)

  -- The last `m` of the samples so far.
  abbrev pub window : ℕ → List A → LatencyTracker A
  window m xs = record { samples = drop (length xs - m) xs; max_len = m }

  record_sample-window :
      (m : ℕ) (xs : List A) (x : A)
      → 0 < m
      → record_sample (window m xs) x ≡ some (window m (xs ++ (x ∷ [])))
  unfolding record_sample
  record_sample-window m xs x pos =
      let len = length-drop (length xs - m) xs in
      let more = length-append xs (x ∷ []) in
      elim (dec_le m (length xs)) [
        | yes full ↦
            let test : leb m (length (drop (length xs - m) xs)) ≡ true = ground arith in
            let cut : length (xs ++ (x ∷ [])) - m ≡ suc (length xs - m) = omega arith in
            rw
              (
                test,
                without_oldest-drop (length xs - m) xs (omega arith),
                cut,
                drop-snoc (suc (length xs - m)) xs x (omega arith),
              )
              refl
        | no room ↦
            let test : leb m (length (drop (length xs - m) xs)) ≡ false = ground arith in
            let cut : length xs - m ≡ 0 = omega arith in
            let cut' : length (xs ++ (x ∷ [])) - m ≡ 0 = omega arith in rw (test, cut', cut) refl
      ]

  record_all-window :
      (m : ℕ) (old xs : List A) → 0 < m → record_all (window m old) xs ≡ some (window m (old ++ xs))
  unfolding record_all
  record_all-window m old [] pos = ap (λ l. some (window m l)) (sym (append-nil old))
  record_all-window m old (x ∷ xs) pos = rw (record_sample-window m old x pos) (
      record_all-window m (old ++ (x ∷ [])) xs pos
      ∙ ap (λ l. some (window m l)) (append_assoc old (x ∷ []) xs))

  -- A tracker with room for at least one sample never faults: after any durations it holds the last of them in order, all if there are at most `max_len` and `max_len` of them otherwise.
  pub record-window :
      (m : ℕ) (xs : List A)
      → 0 < m
      → (t : LatencyTracker A) × (record_all (new_latency_tracker m) xs ≡ some t)
        × (t.samples ≡ drop (length xs - m) xs)
        × (length t.samples ≤ m)
  record-window m xs pos = (
    window m xs,
    sym (
          ap (λ l. record_all (record { samples = l; max_len = m }) xs)
            (drop_all (0 - m) [] (omega arith)))
        ∙ record_all-window m [] xs pos,
    refl,
    omega (arith, length-drop (length xs - m) xs),
  )
