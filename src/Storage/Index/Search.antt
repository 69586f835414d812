-- ===== src/Storage/Index/Search.antt =====
-- `sort.Search` ends, and stops between an entry that fails the test and one that passes it.
use native.Mathlib.Decide.{dec_lt}
use aegis_log.Common.{
  ℕ, zero, suc, ◌+◌, ◌-◌, ◌/◌, ◌≤◌, ◌<◌, ◌≡◌, ◌∙◌, refl, arith, Bool, true, false, Option, some,
  lt→ltb, le→ltb, ◌⊎◌, inl, inr, Bool-cases,
}
use aegis_log.Storage.Index.{search_loop, search_first}

-- The result lies in the range, the place before it fails the test, and the place at it passes, unless it is an end of the range.
pub record IsCut (test : ℕ → Option Bool) (i j k : ℕ) : Type 0 where
  pub low : i ≤ k
  pub high : k ≤ j
  pub fails_before : (k ≡ i) ⊎ (test (k - 1) ≡ some false)
  pub passes_at : (k ≡ j) ⊎ (test k ≡ some true)

-- The lower half was enough.
lower :
    (test : ℕ → Option Bool) (i j h k : ℕ)
    → h ≤ j
    → test h ≡ some true
    → IsCut test i h k
    → IsCut test i j k
lower test i j h k le e c = record {
  low = c.low;
  high = omega (arith, c.high);
  fails_before = c.fails_before;
  passes_at = elim c.passes_at [ inl k≡h ↦ inr (rw k≡h e) | inr t ↦ inr t ];
}

-- The upper half was enough.
upper :
    (test : ℕ → Option Bool) (i j h k : ℕ)
    → i ≤ h
    → test h ≡ some false
    → IsCut test (h + 1) j k
    → IsCut test i j k
upper test i j h k le e c = record {
  low = omega (arith, c.low);
  high = c.high;
  fails_before = elim c.fails_before [
    | inl k≡h ↦ inr (let p : k - 1 ≡ h = omega arith in rw p e)
    | inr t ↦ inr t
  ];
  passes_at = c.passes_at;
}

-- One round of the loop.
step-true :
    (fuel : ℕ) (test : ℕ → Option Bool) (i j : ℕ)
    → i < j
    → test ((i + j) / 2) ≡ some true
    → search_loop (suc fuel) test i j ≡ search_loop fuel test i ((i + j) / 2)
unfolding search_loop
step-true fuel test i j lt e = rw (search_loop, lt→ltb i j lt, e) refl

step-false :
    (fuel : ℕ) (test : ℕ → Option Bool) (i j : ℕ)
    → i < j
    → test ((i + j) / 2) ≡ some false
    → search_loop (suc fuel) test i j ≡ search_loop fuel test ((i + j) / 2 + 1) j
unfolding search_loop
step-false fuel test i j lt e = rw (search_loop, lt→ltb i j lt, e) refl

step-stop :
    (fuel : ℕ) (test : ℕ → Option Bool) (i j : ℕ) → j ≤ i → search_loop fuel test i j ≡ some i
unfolding search_loop
step-stop zero test i j le = refl
step-stop (suc fuel) test i j le = rw (search_loop, le→ltb i j le) refl

-- The loop over a range ends with fuel for its length, when the test answers throughout the range.
pub search_loop-IsCut :
    (fuel : ℕ) (test : ℕ → Option Bool) (i j : ℕ)
    → i ≤ j
    → j ≤ i + fuel
    → ((h : ℕ) → h < j → (b : Bool) × (test h ≡ some b))
    → (k : ℕ) × (search_loop fuel test i j ≡ some k) × IsCut test i j k
search_loop-IsCut zero test i j le fits total = (
  i,
  step-stop zero test i j (omega arith),
  record { low = omega arith; high = le; fails_before = inl refl; passes_at = inl (omega arith) },
)
search_loop-IsCut (suc fuel) test i j le fits total =
    let h = (i + j) / 2 in
    elim (dec_lt i j) [
      | yes lt ↦
          let (b, answer) = total h (omega arith) in
          elim (Bool-cases b) [
            | inl up ↦
                let e : test h ≡ some true = cc (answer, up) in
                let (k, r, c) =
                  search_loop-IsCut fuel test i h (omega arith) (omega arith)
                    (λ m lm. total m (omega arith)) in
                (k, step-true fuel test i j lt e ∙ r, lower test i j h k (omega arith) e c)
            | inr down ↦
                let e : test h ≡ some false = cc (answer, down) in
                let (k, r, c) =
                  search_loop-IsCut fuel test (h + 1) j (omega arith) (omega arith) total in
                (k, step-false fuel test i j lt e ∙ r, upper test i j h k (omega arith) e c)
          ]
      | no ge ↦ (
        i,
        step-stop (suc fuel) test i j (omega arith),
        record {
          low = omega arith;
          high = le;
          fails_before = inl refl;
          passes_at = inl (omega arith);
        },
      )
    ]

-- `sort.Search` over `n` entries.
pub search_first-IsCut :
    (n : ℕ) (test : ℕ → Option Bool)
    → ((h : ℕ) → h < n → (b : Bool) × (test h ≡ some b))
    → (k : ℕ) × (search_first n test ≡ some k) × IsCut test 0 n k
unfolding search_first
search_first-IsCut n test total = search_loop-IsCut n test 0 n (omega arith) (omega arith) total
