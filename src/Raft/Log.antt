-- ===== src/Raft/Log.antt =====
-- The log of a well-formed node (raft/consensus.go): an anchor at `lastIncludedIndex` and the entries behind it, each under its own index.
use aegis_log.Common.{
  ℕ, zero, suc, ◌+◌, ◌-◌, ◌^◌, ◌≤◌, ◌<◌, ◌≡◌, refl, ap, arith, some, List, [], ◌∷◌, ◌++◌, length,
  get_elem?, take, drop, drop_all, inl, inr, ◌⊎◌,
}
use mathlib.Core.Path.{subst}
use native.Mathlib.Decide.{dec_lt}
use aegis_log.Raft.Types.{Config, LogEntry, RaftNode}
use aegis_log.Raft.Node.{
  new_raft_node, initial_entries, last_log_index, last_log_term, get_log_term, get_log_slice,
  term_of,
}

-- The entries stand under the indices `i`, `i + 1`, ….
abbrev pub Indexed : ℕ → List LogEntry → Type 0
Indexed i [] = Unit {0}
Indexed i (e ∷ es) = (e.index ≡ i) × Indexed (suc i) es

-- The log begins with an entry of term `t`.
abbrev pub Anchored : ℕ → List LogEntry → Type 0
Anchored t [] = ⊥
Anchored t (e ∷ es) = e.term ≡ t

pub record IsWellFormed (s : RaftNode) : Type 0 where
  pub indexed : Indexed s.last_included_index s.log
  pub anchored : Anchored s.last_included_term s.log
  pub in_range : s.last_included_index + length s.log ≤ 2 ^ 63
  pub committed : s.last_included_index ≤ s.commit_index
  pub applied : s.last_included_index ≤ s.last_applied

pub Indexed-append :
    (i : ℕ) (xs ys : List LogEntry)
    → Indexed i xs
    → Indexed (i + length xs) ys
    → Indexed i (xs ++ ys)
Indexed-append i [] ys hx hy = let e : i + 0 ≡ i = omega arith in subst (λ k. Indexed k ys) e hy
Indexed-append i (x ∷ xs) ys hx hy =
    let e : i + suc (length xs) ≡ suc i + length xs = omega arith in
    (hx.0, Indexed-append (suc i) xs ys hx.1 (subst (λ k. Indexed k ys) e hy))

pub Indexed-take : (i n : ℕ) (xs : List LogEntry) → Indexed i xs → Indexed i (take n xs)
Indexed-take i zero xs h = tt
Indexed-take i (suc n) [] h = tt
Indexed-take i (suc n) (x ∷ xs) h = (h.0, Indexed-take (suc i) n xs h.1)

pub Indexed-drop :
    (i n : ℕ) (xs : List LogEntry) → Indexed i xs → n ≤ length xs → Indexed (i + n) (drop n xs)
Indexed-drop i zero xs h lt = let e : i ≡ i + 0 = omega arith in subst (λ k. Indexed k xs) e h
Indexed-drop i (suc n) [] h lt = absurd (omega arith)
Indexed-drop i (suc n) (x ∷ xs) h lt =
    let e : suc i + n ≡ i + suc n = omega arith in
    subst (λ k. Indexed k (drop n xs)) e (Indexed-drop (suc i) n xs h.1 (omega arith))

pub get_elem?_index :
    (i n : ℕ) (xs : List LogEntry)
    → Indexed i xs
    → n < length xs
    → (e : LogEntry) × (get_elem? xs n ≡ some e) × (e.index ≡ i + n)
get_elem?_index i n [] h lt = absurd (omega arith)
get_elem?_index i zero (x ∷ xs) h lt = (x, refl, omega arith)
get_elem?_index i (suc n) (x ∷ xs) h lt =
    let (e, p, q) = get_elem?_index (suc i) n xs h.1 (omega arith) in (e, p, omega arith)

pub Anchored-length : (t : ℕ) (xs : List LogEntry) → Anchored t xs → 0 < length xs
Anchored-length t [] h = absurd h
Anchored-length t (x ∷ xs) h = omega arith

pub Anchored-append : (t : ℕ) (xs ys : List LogEntry) → Anchored t xs → Anchored t (xs ++ ys)
Anchored-append t [] ys h = absurd h
Anchored-append t (x ∷ xs) ys h = h

pub Anchored-head : (t : ℕ) (xs : List LogEntry) → Anchored t xs → term_of (get_elem? xs 0) ≡ some t
unfolding term_of
Anchored-head t [] h = absurd h
Anchored-head t (x ∷ xs) h = ap some h

-- `log[len(log)-1]` of a well-formed node.
pub last_log_index-eq :
    (s : RaftNode)
    → IsWellFormed s
    → last_log_index s ≡ some (s.last_included_index + length s.log - 1)
unfolding last_log_index
last_log_index-eq s w =
    let n = length s.log - 1 in
    let pos : 0 < length s.log = Anchored-length s.last_included_term s.log w.anchored in
    let (e, p, q) = get_elem?_index s.last_included_index n s.log w.indexed (omega arith) in
    rw p (ap some (omega arith))

pub last_log_term-eq :
    (s : RaftNode) → IsWellFormed s → last_log_term s ≡ term_of (get_elem? s.log (length s.log - 1))
unfolding last_log_term term_of
last_log_term-eq s w = ground arith

pub last_log_term_total : (s : RaftNode) → IsWellFormed s → (t : ℕ) × (last_log_term s ≡ some t)
unfolding last_log_term
last_log_term_total s w =
    let n = length s.log - 1 in
    let pos : 0 < length s.log = Anchored-length s.last_included_term s.log w.anchored in
    let (e, p, q) = get_elem?_index s.last_included_index n s.log w.indexed (omega arith) in
    (e.term, rw p)

-- Inside the log, `getLogTerm` gives the term of the entry.
pub get_log_term-eq :
    (s : RaftNode) (i : ℕ)
    → IsWellFormed s
    → s.last_included_index ≤ i
    → i < s.last_included_index + length s.log
    → get_log_term s i ≡ term_of (get_elem? s.log (i - s.last_included_index))
unfolding get_log_term
get_log_term-eq s i w lo hi =
    ground (arith, w.in_range, Anchored-head s.last_included_term s.log w.anchored)

-- Outside of it, `getLogTerm` gives 0.
pub get_log_term_out :
    (s : RaftNode) (i : ℕ)
    → IsWellFormed s
    → i < 2 ^ 63
    → (i < s.last_included_index) ⊎ (s.last_included_index + length s.log ≤ i)
    → get_log_term s i ≡ some 0
unfolding get_log_term
get_log_term_out s i w h (inl lo) = ground arith
get_log_term_out s i w h (inr hi) =
    ground (arith, Anchored-length s.last_included_term s.log w.anchored)

-- At an index below 2 ^ 63, `getLogTerm` does not panic.
pub get_log_term_total :
    (s : RaftNode) (i : ℕ) → IsWellFormed s → i < 2 ^ 63 → (t : ℕ) × (get_log_term s i ≡ some t)
unfolding term_of
get_log_term_total s i w h = elim (dec_lt i s.last_included_index) [
  | yes lo ↦ (0, get_log_term_out s i w h (inl lo))
  | no lo ↦ elim (dec_lt i (s.last_included_index + length s.log)) [
    | yes hi ↦
        let (e, p, q) =
          get_elem?_index s.last_included_index (i - s.last_included_index) s.log w.indexed
            (omega arith) in
        (e.term, rw (get_log_term-eq s i w (omega arith) hi, p))
    | no hi ↦ (0, get_log_term_out s i w h (inr (omega arith)))
  ]
]

-- Behind the anchor and up to 2 ^ 63, `getLogSlice` is the rest of the log from that index.
pub get_log_slice-eq :
    (s : RaftNode) (i : ℕ)
    → i < 2 ^ 63
    → s.last_included_index < i
    → get_log_slice s i ≡ some (drop (i - s.last_included_index) s.log)
unfolding get_log_slice
get_log_slice-eq s i h lo = ground (arith, drop_all (i - s.last_included_index) s.log)

initial_entries-Indexed : (n i : ℕ) → Indexed i (initial_entries i n)
unfolding initial_entries
initial_entries-Indexed zero i = tt
initial_entries-Indexed (suc n) i =
    let e : i + 1 ≡ suc i = omega arith in
    (refl, subst (λ k. Indexed k (initial_entries (i + 1) n)) e (initial_entries-Indexed n (i + 1)))

length-initial_entries : (n i : ℕ) → length (initial_entries i n) ≡ n
unfolding initial_entries
length-initial_entries zero i = refl
length-initial_entries (suc n) i = ap suc (length-initial_entries n (i + 1))

pub new_raft_node-IsWellFormed :
    (c : Config) (now : ℕ) → c.initial_commit_index < 2 ^ 63 → IsWellFormed (new_raft_node c now)
unfolding new_raft_node initial_entries
new_raft_node-IsWellFormed c now h = record {
  indexed = initial_entries-Indexed (suc c.initial_commit_index) 0;
  anchored = refl;
  in_range = omega (arith, length-initial_entries c.initial_commit_index (0 + 1));
  committed = omega arith;
  applied = omega arith;
}
