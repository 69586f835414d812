-- ===== src/Server/Latency/Sorted.antt =====
-- The order of the sorted samples of `Percentiles` in cmd/node/main.go.
use mathlib.Core.List.{Perm}
use mathlib.Core.Path.{subst}
use native.Mathlib.Decide.{ℕ_discrete}
use aegis_log.Common.{
  ◌≤◌, ◌*◌, ◌==◌, ◌&&◌, ℕ, zero, suc, ◌+◌, ◌-◌, ◌/◌, ◌<◌, ◌≡◌, refl, ap, ◌∙◌, arith, Bool, true,
  false, some, List, [], ◌∷◌, length, get_elem?, if◌then◌else◌, leb, Bool-cases, inl, inr, All, min,
}
use aegis_log.Server.Latency.{p99_index, LatencyTracker, sort_from, percentiles, percentiles_of}
use aegis_log.Server.Latency.Shift.{
  onto, length-onto, insert_down, insert_all, length-insert_down, sort_from-eq, insert_all-Perm,
}

-- The test holds below a bound.
abbrev holds_below : ℕ → (ℕ → Bool) → Bool
holds_below zero test = true
holds_below (suc n) test = test n && holds_below n test

holds_below-true :
    (n : ℕ) (test : ℕ → Bool) → holds_below n test ≡ true → (i : ℕ) → i < n → test i ≡ true
holds_below-true zero test h i lt = absurd (omega arith)
holds_below-true (suc n) test h i lt = elim (ℕ_discrete i n) [
  | yes e ↦ ground (arith, e)
  | no ne ↦ holds_below-true n test (ground arith) i (omega arith)
]

p99_index-checked : holds_below 61 (λ k. p99_index k == 99 * k / 100) ≡ true
unfolding p99_index
p99_index-checked = refl

-- `int(float64(n) * 0.99)` of up to 60 samples.
p99_index-eq : (n : ℕ) → n ≤ 60 → p99_index n ≡ 99 * n / 100
p99_index-eq n few =
    let same : (p99_index n == 99 * n / 100) ≡ true =
      holds_below-true 61 (λ k. p99_index k == 99 * k / 100) p99_index-checked n (omega arith) in
    ground arith

module _ {ℓ} {A : Type ℓ} where
  module _ (above : A → A → Bool) where
    -- No element of the list is above a later one.
    abbrev pub IsUp : List A → Type 0
    IsUp [] = Unit {0}
    IsUp (x ∷ xs) = All (λ y. above x y ≡ false) xs × IsUp xs

    abbrev IsDown : List A → Type 0
    IsDown [] = Unit {0}
    IsDown (x ∷ xs) = All (λ y. above y x ≡ false) xs × IsDown xs

    abbrev Between : List A → List A → Type 0
    Between [] ys = Unit {0}
    Between (x ∷ xs) ys = All (λ y. above x y ≡ false) ys × Between xs ys

    Between-cons :
        (xs ys : List A) (x : A)
        → All (λ y. above y x ≡ false) xs
        → Between xs ys
        → Between xs (x ∷ ys)
    Between-cons [] ys x h b = tt
    Between-cons (z ∷ xs) ys x (h, hs) (b, bs) = ((h, b), Between-cons xs ys x hs bs)

    Between-nil : (xs : List A) → Between xs []
    Between-nil [] = tt
    Between-nil (x ∷ xs) = (tt, Between-nil xs)

    onto-IsUp : (xs ys : List A) → IsDown xs → IsUp ys → Between xs ys → IsUp (onto xs ys)
    onto-IsUp [] ys d u b = u
    onto-IsUp (x ∷ xs) ys (d, ds) u (b, bs) =
        onto-IsUp xs (x ∷ ys) ds (b, u) (Between-cons xs ys x d bs)

    -- What the two numbers are.
    pub record IsPercentiles (samples : List A) (at : ℕ) (p50 p99 : A) : Type ℓ where
      pub sorted : List A
      pub up : IsUp sorted
      pub perm : Perm sorted samples
      pub median : get_elem? sorted (length samples / 2) ≡ some p50
      pub high : get_elem? sorted (min at (length samples - 1)) ≡ some p99

    module _ (asym : (x y : A) → above x y ≡ true → above y x ≡ false)
        (trans : (x y z : A) → above x y ≡ false → above y z ≡ false → above x z ≡ false) where
      not_above_each :
          (key x : A) (xs : List A)
          → above x key ≡ false
          → All (λ y. above y x ≡ false) xs
          → All (λ y. above y key ≡ false) xs
      not_above_each key x [] h hs = tt
      not_above_each key x (y ∷ xs) h (g, gs) = (trans y x key g h, not_above_each key x xs h gs)

      insert_down-All :
          (key x : A) (down : List A)
          → above key x ≡ false
          → All (λ y. above y x ≡ false) down
          → All (λ y. above y x ≡ false) (insert_down above key down)
      unfolding insert_down
      insert_down-All key x [] h hs = (h, tt)
      insert_down-All key x (y ∷ down) h (g, gs) = elim (Bool-cases (above y key)) [
        | inl moves ↦ rw (moves) (g, insert_down-All key x down h gs)
        | inr stops ↦ rw (stops) (h, (g, gs))
      ]

      insert_down-IsDown :
          (key : A) (down : List A) → IsDown down → IsDown (insert_down above key down)
      unfolding insert_down
      insert_down-IsDown key [] d = (tt, tt)
      insert_down-IsDown key (x ∷ down) (d, ds) = elim (Bool-cases (above x key)) [
        | inl moves ↦
            rw (moves)
              (insert_down-All key x down (asym x key moves) d, insert_down-IsDown key down ds)
        | inr stops ↦ rw (stops) ((stops, not_above_each key x down stops d), (d, ds))
      ]

      insert_all-IsDown : (rest down : List A) → IsDown down → IsDown (insert_all above down rest)
      unfolding insert_all
      insert_all-IsDown [] down d = d
      insert_all-IsDown (x ∷ rest) down d =
          insert_all-IsDown rest (insert_down above x down) (insert_down-IsDown x down d)

      length-insert_all :
          (rest down : List A) → length (insert_all above down rest) ≡ length down + length rest
      unfolding insert_all
      length-insert_all [] down = omega arith
      length-insert_all (x ∷ rest) down = omega (
        arith,
        length-insert_all rest (insert_down above x down),
        length-insert_down above x down,
      )

      present : (xs : List A) (i : ℕ) → i < length xs → (x : A) × (get_elem? xs i ≡ some x)
      present [] i h = absurd (omega arith)
      present (x ∷ xs) zero h = (x, refl)
      present (x ∷ xs) (suc i) h = present xs i (omega arith)

      percentiles_of-eq :
          (baseline : A × A) (x : A) (xs sorted : List A) (p50 p99 : A)
          → sort_from above 1 (length xs) (x ∷ xs) ≡ some sorted
          → get_elem? sorted (suc (length xs) / 2) ≡ some p50
          → get_elem? sorted (min (p99_index (suc (length xs))) (length xs)) ≡ some p99
          → percentiles_of above baseline (x ∷ xs) ≡ some (p50, p99)
      unfolding percentiles_of
      percentiles_of-eq baseline x xs sorted p50 p99 s m h =
          let n = suc (length xs) in
          let pred : n - 1 ≡ length xs = omega arith in
          let index : (if leb n (p99_index n) then length xs else p99_index n)
              ≡ min (p99_index n) (length xs) =
            ground arith in
          rw (pred, s, m, index, h) refl

      percentiles_of-IsPercentiles :
          (baseline : A × A) (samples : List A)
          → 0 < length samples
          → (p50 : A) × (p99 : A) × (percentiles_of above baseline samples ≡ some (p50, p99))
            × IsPercentiles samples (p99_index (length samples)) p50 p99
      percentiles_of-IsPercentiles baseline [] h = absurd (omega arith)
      percentiles_of-IsPercentiles baseline (x ∷ xs) h =
          let down = insert_all above (x ∷ []) xs in
          let sorted = onto down [] in
          let len : length sorted ≡ suc (length xs) =
            omega (arith, length-onto down [], length-insert_all xs (x ∷ [])) in
          let (p50, m) = present sorted (suc (length xs) / 2) (omega arith) in
          let (p99, e) =
            present sorted (min (p99_index (suc (length xs))) (length xs)) (omega arith) in
          let last : suc (length xs) - 1 ≡ length xs = omega arith in
          (
            p50,
            p99,
            percentiles_of-eq baseline x xs sorted p50 p99 (sort_from-eq above xs (x ∷ [])) m e,
            record {
              sorted = sorted;
              up = onto-IsUp down [] (insert_all-IsDown xs (x ∷ []) (tt, tt)) tt (Between-nil down);
              perm = insert_all-Perm above xs (x ∷ []);
              median = m;
              high = ap (λ k. get_elem? sorted (min (p99_index (suc (length xs))) k)) last ∙ e;
            },
          )

      -- `Percentiles` of 1 to 60 samples, as many as the server keeps, does not fault: its loops leave the samples in ascending order, none lost or doubled, and the two results stand there at n / 2 and at 99 n / 100, both cut to a whole number; the test between samples is asymmetric and its negation transitive.
      pub percentiles-IsPercentiles :
          (baseline : A × A) (t : LatencyTracker A)
          → 0 < length t.samples
          → length t.samples ≤ 60
          → (p50 : A) × (p99 : A) × (percentiles above baseline t ≡ some (p50, p99))
            × IsPercentiles t.samples (99 * length t.samples / 100) p50 p99
      unfolding percentiles
      percentiles-IsPercentiles baseline t some_there few =
          let (p50, p99, e, found) = percentiles_of-IsPercentiles baseline t.samples some_there in
          (
            p50,
            p99,
            e,
            subst (λ at. IsPercentiles t.samples at p50 p99) (p99_index-eq (length t.samples) few)
                found,
          )
