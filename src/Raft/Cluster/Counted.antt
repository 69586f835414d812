-- ===== src/Raft/Cluster/Counted.antt =====
-- The lists of counted votes of a cluster (raft/consensus.go, `votesReceived`).
use Prim.Native.String.{String}
use text.Mathlib.Text.{◌==◌ as str_eq}
use text.Mathlib.TextEquality.{eq_iff}
use text.Mathlib.TextPositions.{eq_refl}
use mathlib.Core.Path.{subst}
use aegis_log.Common.{
  ℕ, ◌≤◌, ◌≡◌, refl, sym, arith, true, false, List, [], ◌∷◌, length, ◌==◌, ◌&&◌, inl, inr, All,
  Bool-cases,
}
use aegis_log.Raft.Cluster.{set_counted}
use aegis_log.Raft.Cluster.Majority.{has}

pub All-map :
    {P Q : String → Type 0} (vs : List String) → ((v : String) → P v → Q v) → All P vs → All Q vs
All-map [] f h = tt
All-map (v ∷ vs) f (h, hs) = (f v h, All-map vs f hs)

pub All-has :
    (P : String → Type 0) (v : String) (vs : List String) → All P vs → has v vs ≡ true → P v
unfolding has
All-has P v [] h e = cc
All-has P v (w ∷ ws) (h, hs) e = elim (Bool-cases (str_eq v w)) [
  | inl same ↦ subst P (sym ((eq_iff v w).0 same)) h
  | inr apart ↦ All-has P v ws hs (ground arith)
]

module _ (f : String → ℕ → List String) (c : String) (t : ℕ) (vs : List String) where
  pub set_counted_self : set_counted f c t vs c t ≡ vs
  unfolding set_counted
  set_counted_self = ground (arith, eq_refl c)

  pub set_counted_other :
      (d : String) (u : ℕ) → str_eq c d ≡ false → set_counted f c t vs d u ≡ f d u
  unfolding set_counted
  set_counted_other d u h = rw (h) refl

  pub set_counted-each :
      (P : String → ℕ → List String → Type 0)
      → P c t vs
      → ((d : String) (u : ℕ) → P d u (f d u))
      → (d : String) (u : ℕ) → P d u (set_counted f c t vs d u)
  unfolding set_counted
  set_counted-each P new old d u = elim (Bool-cases (str_eq c d && t == u)) [
    | inl same ↦ rw (same) (
        let e : c ≡ d = ground (arith, eq_iff c d) in
        let k : t ≡ u = ground arith in subst (λ d. P d u vs) e (subst (λ u. P c u vs) k new))
    | inr apart ↦ rw (apart) (old d u)
  ]

  pub set_counted-grows :
      length (f c t) ≤ length vs
      → (d : String) (u : ℕ) → length (f d u) ≤ length (set_counted f c t vs d u)
  set_counted-grows h =
      set_counted-each (λ d u ws. length (f d u) ≤ length ws) h (λ d u. omega arith)

-- Two writes at the same place.
pub set_counted-both :
    (f g : String → ℕ → List String) (c : String) (t : ℕ) (vs ws : List String)
    (P : String → ℕ → List String → List String → Type 0)
    → P c t vs ws
    → ((d : String) (u : ℕ) → P d u (f d u) (g d u))
    → (d : String) (u : ℕ) → P d u (set_counted f c t vs d u) (set_counted g c t ws d u)
unfolding set_counted
set_counted-both f g c t vs ws P new old d u = elim (Bool-cases (str_eq c d && t == u)) [
  | inl same ↦ rw (same) (
      let e : c ≡ d = ground (arith, eq_iff c d) in
      let k : t ≡ u = ground arith in subst (λ d. P d u vs ws) e (subst (λ u. P c u vs ws) k new))
  | inr apart ↦ rw (apart) (old d u)
]
