-- ===== src/Raft/Cluster/Safe.antt =====
-- What holds of a cluster of nodes of raft/consensus.go: the votes and the nodes agree, and every
-- vote that was counted was given.
use Prim.Native.String.{String}
use text.Mathlib.Text.{◌==◌ as str_eq}
use text.Mathlib.TextEquality.{eq_iff}
use aegis_log.Common.{
  ℕ, ◌+◌, ◌*◌, ◌≤◌, ◌<◌, ◌≡◌, ◌≢◌, sym, ap, ◌∙◌, arith, true, false, List, ◌∷◌, length, inl, inr,
  All,
}
use aegis_log.Raft.Types.{RaftNode, leader}
use aegis_log.Raft.Ballot.{Holds}
use aegis_log.Raft.Cluster.{Vote, Cluster, Gave}
use aegis_log.Raft.Cluster.Majority.{has, IsDistinct, Apart}
use aegis_log.Raft.Cluster.Counted.{All-map}
use mathlib.Core.Path.{subst}

-- What a node and its votes have in common.
pub record Fits (members : List String) (votes : List Vote) (counted : String → ℕ → List String)
    (a : String) (s : RaftNode) : Type 0 where
  pub named : s.id ≡ a
  pub sized : has a members ≡ true → length s.peers + 1 ≡ length members
  pub different : has a members ≡ true → IsDistinct (a ∷ s.peers)
  pub held :
      (c : String) (t : ℕ)
      → Gave votes a c t
      → (t ≤ s.current_term) × (s.current_term ≡ t → s.voted_for ≡ c)
  pub led : s.role ≡ leader → length members < 2 * length (counted a s.current_term)

-- The votes counted in an election, and the nodes that it still waits for.
pub record Tally (votes : List Vote) (c : String) (t : ℕ) (counted waiting : List String)
    : Type 0 where
  pub once_each : IsDistinct counted
  pub given : All (λ v. Gave votes v c t) counted
  pub asked_once : IsDistinct waiting
  pub not_yet : Apart counted waiting

pub Tally-vote :
    (votes : List Vote) (b : Vote) (c : String) (t : ℕ) (counted waiting : List String)
    → Tally votes c t counted waiting
    → Tally (b ∷ votes) c t counted waiting
Tally-vote votes b c t counted waiting k = record {
  once_each = k.once_each;
  given = All-map counted (λ a e. inr e) k.given;
  asked_once = k.asked_once;
  not_yet = k.not_yet;
}

pub record IsSafe (members : List String) (w : Cluster) : Type 0 where
  pub fits : (a : String) → Fits members w.votes w.counted a (w.nodes a)
  pub real :
      (v c : String) (t : ℕ) → Gave w.votes v c t → (has v members ≡ true) × (has c members ≡ true)
  pub non_empty : has "" members ≡ false
  pub once : (v c d : String) (t : ℕ) → Gave w.votes v c t → Gave w.votes v d t → c ≡ d
  pub tallied : (c : String) (t : ℕ) → Tally w.votes c t (w.counted c t) (w.waiting c t)

module _ {members : List String} {votes : List Vote} {f : String → ℕ → List String}
    {a : String} where
  -- A step of the node itself.
  pub Fits-Holds :
      (s s' : RaftNode) {g : String → ℕ → List String}
      → ((c : String) (t : ℕ) → Gave votes a c t → c ≢ "")
      → Holds s s'
      → (s'.role ≡ leader → length members < 2 * length (g a s'.current_term))
      → Fits members votes f a s
      → Fits members votes g a s'
  Fits-Holds s s' real h l k = record {
    named = h.same_id ∙ k.named;
    sized = λ m. ap (λ ps. length {A = String} ps + 1) h.same_peers ∙ k.sized m;
    different = λ m. subst (λ ps. IsDistinct (a ∷ ps)) (sym h.same_peers) (k.different m);
    held = λ c t b.
        let (low, same) = k.held c t b in
        (
          omega (arith, h.term),
          λ e.
              let old : s.current_term ≡ t = omega (arith, h.term) in
              h.vote (e ∙ sym old) (λ none. real c t b (sym (same old) ∙ none)) ∙ same old,
        );
    led = l;
  }

  pub Fits-grows :
      (s : RaftNode) {g : String → ℕ → List String}
      → ((u : ℕ) → length (f a u) ≤ length (g a u))
      → Fits members votes f a s
      → Fits members votes g a s
  Fits-grows s h k = record {
    named = k.named;
    sized = k.sized;
    different = k.different;
    held = k.held;
    led = λ l. omega (arith, k.led l, h s.current_term);
  }

  -- One more vote, which the node keeps if it is its own.
  pub Fits-vote :
      (s : RaftNode) (b : Vote)
      → (b.voter ≡ a → (b.term ≤ s.current_term) × (s.voted_for ≡ b.candidate))
      → Fits members votes f a s
      → Fits members (b ∷ votes) f a s
  Fits-vote s b own k = record {
    named = k.named;
    sized = k.sized;
    different = k.different;
    held = λ c t g. elim g [
      | inl (v, d, u) ↦ let (low, same) = own v in (omega (arith), λ e. same ∙ d)
      | inr old ↦ k.held c t old
    ];
    led = k.led;
  }

  pub Fits-vote_elsewhere :
      (s : RaftNode) (b : Vote)
      → str_eq b.voter a ≡ false
      → Fits members votes f a s
      → Fits members (b ∷ votes) f a s
  Fits-vote_elsewhere s b h = Fits-vote s b (λ e. absurd (ground (arith, eq_iff b.voter a)))
