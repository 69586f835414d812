-- ===== src/Raft/Commit.antt =====
-- The commit rule of the leader, `checkAndUpdateCommitIndex` of raft/consensus.go.
use aegis_log.Common.{
  [], ◌∷◌, ◌*◌, ℕ, zero, suc, ◌+◌, ◌-◌, ◌≤◌, ◌<◌, ◌≡◌, refl, sym, ap, ◌∙◌, arith, Option, some,
  none, List, length, ◌⊎◌, inl, inr, Option-cases,
}
use Prim.Native.String.{String}
use mathlib.Core.Path.{subst}
use mathlib.Core.Option.{some-injective}
use native.Mathlib.Decide.{dec_lt, dec_le, ℕ_discrete}
use aegis_log.Raft.Types.{RaftNode, Outgoing}
use aegis_log.Raft.Node.{
  get_log_term, quorum, stored_by, find_commit, set_commit, notify, check_and_update_commit_index,
}
use aegis_log.Raft.Log.{IsWellFormed, last_log_index-eq}

-- `k` of the peers hold the log up to `n`, by what the leader knows of each.
pub data Copies (match_index : String → ℕ) (n : ℕ) : List String → ℕ → Type 0 where
  no_peer : Copies match_index n [] 0
  has :
      {p : String} {ps : List String} {k : ℕ}
      → n ≤ match_index p
      → Copies match_index n ps k
      → Copies match_index n (p ∷ ps) (suc k)
  lacks :
      {p : String} {ps : List String} {k : ℕ}
      → match_index p < n
      → Copies match_index n ps k
      → Copies match_index n (p ∷ ps) k

-- The entry at `n` is of the current term, and `copies` peers and the leader itself, more than half of all nodes, store it.
pub record IsCommittable (s : RaftNode) (n : ℕ) : Type 0 where
  pub of_term : get_log_term s n ≡ some s.current_term
  pub copies : ℕ
  pub stored : Copies s.match_index n s.peers copies
  pub majority : length s.peers + 1 < 2 * (1 + copies)

stored_by-Copies :
    (s : RaftNode) (n : ℕ) (ps : List String) → Copies s.match_index n ps (stored_by s n ps)
unfolding stored_by
stored_by-Copies s n [] = no_peer
stored_by-Copies s n (p ∷ ps) = elim (dec_le n (s.match_index p)) [
  | yes up ↦
      let e : stored_by s n (p ∷ ps) ≡ suc (stored_by s n ps) = unfold stored_by in ground arith in
      subst (Copies s.match_index n (p ∷ ps)) (sym e) (has up (stored_by-Copies s n ps))
  | no low ↦
      let e : stored_by s n (p ∷ ps) ≡ stored_by s n ps = unfold stored_by in ground arith in
      subst (Copies s.match_index n (p ∷ ps)) (sym e)
        (lacks (omega arith) (stored_by-Copies s n ps))
]

Copies-stored_by :
    (s : RaftNode) (n : ℕ) (ps : List String) (k : ℕ)
    → Copies s.match_index n ps k
    → stored_by s n ps ≡ k
unfolding stored_by
Copies-stored_by s n [] k no_peer = refl
Copies-stored_by s n ps k (has {ps = qs} {k = j} up c) = ground (arith, Copies-stored_by s n qs j c)
Copies-stored_by s n ps k (lacks {ps = qs} low c) = ground (arith, Copies-stored_by s n qs k c)

IsCommittable-counted :
    (s : RaftNode) (n : ℕ) → IsCommittable s n → quorum s ≤ 1 + stored_by s n s.peers
unfolding quorum
IsCommittable-counted s n c =
    omega (arith, c.majority, Copies-stored_by s n s.peers c.copies c.stored)

IsCommittable-of :
    (s : RaftNode) (n : ℕ)
    → get_log_term s n ≡ some s.current_term
    → quorum s ≤ 1 + stored_by s n s.peers
    → IsCommittable s n
unfolding quorum
IsCommittable-of s n t enough = record {
  of_term = t;
  copies = stored_by s n s.peers;
  stored = stored_by-Copies s n s.peers;
  majority = omega arith;
}

-- What the loop finds, from `n` down.
pub record IsFound (s : RaftNode) (n : ℕ) (found : Option ℕ) : Type 0 where
  pub sound : (m : ℕ) → found ≡ some m → (s.commit_index < m) × (m ≤ n) × IsCommittable s m
  pub highest :
      (k : ℕ)
      → s.commit_index < k
      → k ≤ n
      → IsCommittable s k
      → (m : ℕ) × (found ≡ some m) × (k ≤ m)

-- An index that is not committable is passed over.
IsFound-skip :
    (s : RaftNode) (n : ℕ) {found : Option ℕ}
    → ¬ (IsCommittable s (suc n))
    → IsFound s n found
    → IsFound s (suc n) found
IsFound-skip s n no_match f = record {
  sound = λ m e. let (a, b, c) = f.sound m e in (a, omega arith, c);
  highest = λ k lo hi c. elim (ℕ_discrete k (suc n)) [
    | yes e ↦ absurd (no_match (subst (IsCommittable s) e c))
    | no ne ↦ f.highest k lo (omega arith) c
  ];
}

IsFound-stop : (s : RaftNode) (n : ℕ) → n ≤ s.commit_index → IsFound s n none
IsFound-stop s n h = record { sound = λ m e. cc; highest = λ k lo hi c. absurd (omega arith) }

IsFound-here :
    (s : RaftNode) (n : ℕ) → s.commit_index < n → IsCommittable s n → IsFound s n (some n)
IsFound-here s n h c = record {
  sound = λ m e.
      let e' : n ≡ m = some-injective _ _ e in
      (omega arith, omega arith, subst (IsCommittable s) e' c);
  highest = λ k lo hi _. (n, refl, hi);
}

pub find_commit-IsFound :
    (s : RaftNode) (n : ℕ) {found : Option ℕ} → find_commit s n ≡ some found → IsFound s n found
unfolding find_commit
find_commit-IsFound s zero h =
    subst (IsFound s zero) (some-injective _ _ h) (IsFound-stop s zero (omega arith))
find_commit-IsFound s (suc n) {found} h = elim (dec_lt s.commit_index (suc n)) [
  | no low ↦ subst (IsFound s (suc n)) (ground arith) (IsFound-stop s (suc n) (omega arith))
  | yes above ↦ elim (Option-cases (get_log_term s (suc n))) [
    | inl fault ↦ absurd (ground arith)
    | inr (t, p) ↦ elim (ℕ_discrete t s.current_term) [
      | no ne ↦
          IsFound-skip s n (λ c. ne (ground (arith, c.of_term)))
            (find_commit-IsFound s n (ground arith))
      | yes same ↦ elim (dec_le (quorum s) (1 + stored_by s (suc n) s.peers)) [
        | yes enough ↦
            subst (IsFound s (suc n)) (ground arith)
              (IsFound-here s (suc n) above (IsCommittable-of s (suc n) (p ∙ ap some same) enough))
        | no few ↦
            IsFound-skip s n (λ c. few (IsCommittable-counted s (suc n) c))
              (find_commit-IsFound s n (ground arith))
      ]
    ]
  ]
]

set_commit-index :
    (s s' : RaftNode) (found : Option ℕ) {messages : List Outgoing}
    → set_commit s found ≡ some (s', messages)
    → ((found ≡ none) × (s' ≡ s)) ⊎ ((m : ℕ) × (found ≡ some m) × (s'.commit_index ≡ m))
unfolding set_commit notify
set_commit-index s s' none h = inl (refl, ground arith)
set_commit-index s s' (some m) h = inr (m, refl, ground arith)

IsFound-above :
    (s : RaftNode) (n m : ℕ) → IsFound s n (some m) → (k : ℕ) → k ≤ n → IsCommittable s k → k ≤ m
IsFound-above s n m f k hi c = elim (dec_lt s.commit_index k) [
  | no low ↦ omega (arith, (f.sound m refl).0)
  | yes up ↦
      let (m', e, le) = f.highest k up hi c in let e' : m ≡ m' = some-injective _ _ e in omega arith
]

-- What the leader does with its commit index.
pub data Decision (s s' : RaftNode) (last : ℕ) : Type 0 where
  waits :
      s' ≡ s
      → ((k : ℕ) → s.commit_index < k → k ≤ last → ¬ (IsCommittable s k))
      → Decision s s' last
  commits :
      s.commit_index < s'.commit_index
      → s'.commit_index ≤ last
      → IsCommittable s s'.commit_index
      → ((k : ℕ) → k ≤ last → IsCommittable s k → k ≤ s'.commit_index)
      → Decision s s' last

-- When the commit rule returns on a well-formed node, it has moved the commit index up to the highest index of the log whose entry is of its term and is stored by a majority, the leader included; where there is none above the commit index, it has changed nothing.
pub check_and_update-Decision :
    (s s' : RaftNode) {messages : List Outgoing}
    → IsWellFormed s
    → check_and_update_commit_index s ≡ some (s', messages)
    → Decision s s' (s.last_included_index + length s.log - 1)
unfolding check_and_update_commit_index
check_and_update-Decision s s' {messages} w h =
    let last = s.last_included_index + length s.log - 1 in
    elim (Option-cases (find_commit s last)) [
      | inl fault ↦ absurd (ground (arith, last_log_index-eq s w))
      | inr (found, p) ↦
          let f = find_commit-IsFound s last p in
          elim (set_commit-index s s' found {messages = messages}
            (ground (arith, last_log_index-eq s w))) [
              | inl (e, q) ↦ waits q (λ k lo hi c. let (m, r, _) = f.highest k lo hi c in cc)
              | inr (m, e, q) ↦
                  let (a, b, c) = f.sound m e in
                  commits (omega arith) (omega arith) (subst (IsCommittable s) (sym q) c)
                    (λ k hi d. rw q (IsFound-above s last m (subst (IsFound s last) e f) k hi d))
            ]
    ]
