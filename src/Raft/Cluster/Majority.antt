-- ===== src/Raft/Cluster/Majority.antt =====
-- Two lists of different nodes that are together longer than the cluster share a node.
use Prim.Native.String.{String}
use text.Mathlib.Text.{◌==◌ as str_eq}
use text.Mathlib.TextEquality.{eq_iff}
use text.Mathlib.TextPositions.{eq_refl}
use aegis_log.Common.{
  suc, ◌+◌, ◌≤◌, ◌<◌, ◌≡◌, refl, arith, Bool, true, false, ◌||◌, List, [], ◌∷◌, length, All,
  if◌then◌else◌, Bool-cases, inl, inr,
}

unfoldable pub has : String → List String → Bool
has v [] = false
has v (w ∷ ws) = str_eq v w || has v ws

abbrev pub IsDistinct : List String → Type 0
IsDistinct [] = Unit {0}
IsDistinct (v ∷ vs) = (has v vs ≡ false) × IsDistinct vs

-- Every name of the second list is in the first.
abbrev pub Within : List String → List String → Type 0
Within ms = All (λ v. has v ms ≡ true)

unfoldable pub without : String → List String → List String
without v [] = []
without v (w ∷ ws) = if str_eq v w then ws else w ∷ without v ws

pub length-without :
    (v : String) (ms : List String) → has v ms ≡ true → suc (length (without v ms)) ≡ length ms
unfolding has without
length-without v [] h = cc
length-without v (w ∷ ws) h = ground (arith, length-without v ws)

has-without :
    (v w : String) (ms : List String)
    → has w ms ≡ true
    → str_eq w v ≡ false
    → has w (without v ms) ≡ true
unfolding has without
has-without v w [] h n = cc
has-without v w (m ∷ ms) h n =
    ground (arith, eq_iff v m, eq_iff w m, eq_iff w v, has-without v w ms)

Within-without :
    (v : String) (vs ms : List String) → has v vs ≡ false → Within ms vs → Within (without v ms) vs
unfolding has
Within-without v [] ms n h = tt
Within-without v (w ∷ ws) ms n (h, hs) = (
  has-without v w ms h (ground (arith, eq_iff v w, eq_iff w v)),
  Within-without v ws ms (ground arith) hs,
)

length-Within : (vs ms : List String) → IsDistinct vs → Within ms vs → length vs ≤ length ms
length-Within [] ms d h = omega arith
length-Within (v ∷ vs) ms (n, d) (h, hs) =
    let rest = length-Within vs (without v ms) d (Within-without v vs ms n hs) in
    omega (arith, length-without v ms h, rest)

pub shared :
    (xs ys ms : List String)
    → IsDistinct xs
    → IsDistinct ys
    → Within ms xs
    → Within ms ys
    → length ms < length xs + length ys
    → (v : String) × (has v xs ≡ true) × (has v ys ≡ true)
unfolding has
shared [] ys ms d e h k l = absurd (omega (arith, length-Within ys ms e k))
shared (x ∷ xs) ys ms (n, d) e (h, hs) k l = elim (Bool-cases (has x ys)) [
  | inl common ↦ (x, rw (eq_refl x) refl, common)
  | inr apart ↦
      let (v, in_xs, in_both) = shared xs (x ∷ ys) ms d (apart, e) hs (h, k) (omega arith) in
      (v, ground arith, ground (arith, eq_iff v x, n))
]

-- No name of the second list is in the first.
abbrev pub Apart : List String → List String → Type 0
Apart xs = All (λ v. has v xs ≡ false)

pub All-without :
    (P : String → Type 0) (v : String) (vs : List String) → All P vs → All P (without v vs)
unfolding without
All-without P v [] h = tt
All-without P v (w ∷ ws) (h, hs) = elim (Bool-cases (str_eq v w)) [
  | inl same ↦ rw (same) hs
  | inr apart ↦ rw (apart) (h, All-without P v ws hs)
]

has-without_absent :
    (u v : String) (vs : List String) → has u vs ≡ false → has u (without v vs) ≡ false
unfolding has without
has-without_absent u v [] h = refl
has-without_absent u v (w ∷ ws) h = ground (arith, has-without_absent u v ws)

pub without-IsDistinct : (v : String) (vs : List String) → IsDistinct vs → IsDistinct (without v vs)
unfolding without
without-IsDistinct v [] d = tt
without-IsDistinct v (w ∷ ws) (n, d) = elim (Bool-cases (str_eq v w)) [
  | inl same ↦ rw (same) d
  | inr apart ↦ rw (apart) (has-without_absent w v ws n, without-IsDistinct v ws d)
]

-- A name is apart from the list that it is not in.
pub Apart-single : (v : String) (vs : List String) → has v vs ≡ false → Apart (v ∷ []) vs
unfolding has
Apart-single v [] h = tt
Apart-single v (w ∷ ws) h =
    (ground (arith, eq_iff v w, eq_iff w v), Apart-single v ws (ground arith))

pub Apart-cons :
    (v : String) (xs vs : List String) → has v vs ≡ false → Apart xs vs → Apart (v ∷ xs) vs
unfolding has
Apart-cons v xs [] n h = tt
Apart-cons v xs (w ∷ ws) n (h, hs) =
    (ground (arith, eq_iff v w, eq_iff w v), Apart-cons v xs ws (ground arith) hs)

pub has-without_self :
    (v : String) (vs : List String) → IsDistinct vs → has v (without v vs) ≡ false
unfolding has without
has-without_self v [] d = refl
has-without_self v (w ∷ ws) (n, d) = ground (arith, eq_iff v w, has-without_self v ws d)
