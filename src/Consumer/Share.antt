-- ===== src/Consumer/Share.antt =====
-- What `rebalanceGroup` of consumer/group_coordinator.go gives to each member.
use Prim.Native.String.{String}
use text.Mathlib.Text.{◌==◌ as str_eq}
use text.Mathlib.TextEquality.{eq_iff}
use text.Mathlib.TextPositions.{eq_refl}
use mathlib.Core.Option
use native.Mathlib.Nat.{mod-lt}
use native.Mathlib.Decide.{dec_lt}
use mathlib.Core.List.{append_assoc, append-nil}
use aegis_log.Common.{
  ℕ, zero, suc, ◌+◌, ◌%◌, ◌≡◌, ◌∙◌, ◌<◌, refl, ap, arith, some, none, List, [], ◌∷◌, ◌++◌,
  if◌then◌else◌, length, get_elem?, All, Bool-cases, inl, inr,
}
use aegis_log.Common.Maps.{Map, find, put, keys, find-put}
use aegis_log.Consumer.{
  GroupMember, ConsumerGroup, sort_strings, clear_parts, assign_parts, rebalance_group,
}
use aegis_log.Consumer.Names.{sort_strings-All, length-sort_strings, length-keys}

-- The partitions, numbered from `i` on, whose turn in the cycle of `ids` falls on `id`.
abbrev pub parts_of : List String → String → ℕ → List String → List String
parts_of ids id i [] = []
parts_of ids id i (part ∷ parts) =
    let rest = parts_of ids id (i + 1) parts in
    elim (get_elem? ids (i % length ids)) [
      | none ↦ rest
      | some turn ↦ if str_eq turn id then part ∷ rest else rest
    ]

-- A member with these partitions behind its own.
abbrev give : GroupMember → List String → GroupMember
give m parts = record m { assigned_parts = m.assigned_parts ++ parts }

-- Each name in the list is a member.
abbrev Covers : List String → Map GroupMember → Type 0
Covers ids ms = All (λ id. (m : GroupMember) × (find id ms ≡ some m)) ids

get-Covers :
    (ids : List String) (ms : Map GroupMember) (i : ℕ)
    → Covers ids ms
    → i < length ids
    → (id : String) × (m : GroupMember) × (get_elem? ids i ≡ some id) × (find id ms ≡ some m)
get-Covers [] ms i c h = absurd (omega arith)
get-Covers (id ∷ ids) ms zero ((m, e), c) h = (id, m, refl, e)
get-Covers (id ∷ ids) ms (suc i) (found, c) h = get-Covers ids ms i c (omega arith)

-- Names stay members when a member is added or replaced.
find-put_kept :
    (k j : String) (v w : GroupMember) (ms : Map GroupMember)
    → find j ms ≡ some w
    → (u : GroupMember) × (find j (put k v ms) ≡ some u)
find-put_kept k j v w ms e = elim (Bool-cases (str_eq k j)) [
  | inl same ↦ (v, ground (arith, find-put k j v ms))
  | inr other ↦ (w, ground (arith, find-put k j v ms))
]

Covers-put :
    (ids : List String) (k : String) (v : GroupMember) (ms : Map GroupMember)
    → Covers ids ms
    → Covers ids (put k v ms)
Covers-put [] k v ms c = tt
Covers-put (id ∷ ids) k v ms ((m, e), c) = (find-put_kept k id v m ms e, Covers-put ids k v ms c)

parts_of-turn :
    (ids : List String) (id turn : String) (i : ℕ) (part : String) (parts : List String)
    → get_elem? ids (i % length ids) ≡ some turn
    → parts_of ids id i (part ∷ parts) ≡ (
        if str_eq turn id
        then part ∷ parts_of ids id (i + 1) parts
        else parts_of ids id (i + 1) parts)
parts_of-turn ids id turn i part parts e = rw (parts_of, e) refl

assign_parts-step :
    (ids : List String) (i : ℕ) (part : String) (parts : List String) (ms : Map GroupMember)
    (turn : String) (m : GroupMember)
    → get_elem? ids (i % length ids) ≡ some turn
    → find turn ms ≡ some m
    → assign_parts ids i (part ∷ parts) ms
      ≡ assign_parts ids (i + 1) parts (put turn (give m (part ∷ [])) ms)
unfolding assign_parts
assign_parts-step ids i part parts ms turn m e f = rw (e, f) refl

-- The member whose turn it is gets the partition in front of its later ones.
given-turn :
    (ids : List String) (i : ℕ) (part : String) (parts : List String) (ms ms' : Map GroupMember)
    (turn : String) (m' : GroupMember)
    → get_elem? ids (i % length ids) ≡ some turn
    → find turn ms ≡ some m'
    → ((id : String) (m : GroupMember)
        → find id (put turn (give m' (part ∷ [])) ms) ≡ some m
        → find id ms' ≡ some (give m (parts_of ids id (i + 1) parts)))
    → (id : String) (m : GroupMember) → find id ms ≡ some m
    → find id ms' ≡ some (give m (parts_of ids id i (part ∷ parts)))
given-turn ids i part parts ms ms' turn m' e f later id m g = elim (Bool-cases (str_eq turn id)) [
  | inl same ↦
      let at : find id (put turn (give m' (part ∷ [])) ms) ≡ some (give m' (part ∷ [])) =
        ground (arith, find-put turn id (give m' (part ∷ [])) ms) in
      let t : turn ≡ id = (eq_iff turn id).0 same in
      let m_eq : m ≡ m' = cc in
      let assoc = append_assoc m'.assigned_parts (part ∷ []) (parts_of ids id (i + 1) parts) in
      rw
        (
          parts_of-turn ids id turn i part parts e,
          same,
          m_eq,
          later id (give m' (part ∷ [])) at,
          assoc,
        )
        refl
  | inr other ↦
      rw (parts_of-turn ids id turn i part parts e, other)
        (later id m (ground (arith, find-put turn id (give m' (part ∷ [])) ms)))
]

-- The loop gives each member the partitions of its turns.
assign_parts-Given :
    (ids : List String) (i : ℕ) (parts : List String) (ms : Map GroupMember)
    → 0 < length ids
    → Covers ids ms
    → (ms' : Map GroupMember) × (assign_parts ids i parts ms ≡ some ms')
      × ((id : String) (m : GroupMember)
          → find id ms ≡ some m
          → find id ms' ≡ some (give m (parts_of ids id i parts)))
unfolding assign_parts
assign_parts-Given ids i [] ms h c = (ms, refl, λ id m e. rw (append-nil m.assigned_parts) e)
assign_parts-Given ids i (part ∷ parts) ms h c =
    let (turn, m', e, f) = get-Covers ids ms (i % length ids) c (mod-lt i h) in
    let (ms', e', later) =
      assign_parts-Given ids (i + 1) parts (put turn (give m' (part ∷ [])) ms) h
        (Covers-put ids turn (give m' (part ∷ [])) ms c) in
    (
      ms',
      assign_parts-step ids i part parts ms turn m' e f ∙ e',
      given-turn ids i part parts ms ms' turn m' e f later,
    )

-- A member with no partitions.
abbrev pub cleared : GroupMember → GroupMember
cleared m = record m { assigned_parts = [] }

find-clear_parts :
    (id : String) (ms : Map GroupMember)
    → find id (clear_parts ms) ≡ Option.map cleared (find id ms)
unfolding find
find-clear_parts id [] = refl
find-clear_parts id ((j, n) ∷ ms) = elim (Bool-cases (str_eq j id)) [
  | inl same ↦ rw same refl
  | inr other ↦ rw other (find-clear_parts id ms)
]

find-found :
    (id : String) (ms : Map GroupMember) {m : GroupMember} → find id ms ≡ some m → 0 < length ms
unfolding find
find-found id [] e = cc
find-found id (p ∷ ms) e = omega arith

rebalance_group-eq :
    (g : ConsumerGroup) (partitions : List String) (ms : Map GroupMember)
    → 0 < length g.members
    → assign_parts (sort_strings (keys g.members)) 0 partitions (clear_parts g.members) ≡ some ms
    → rebalance_group g partitions ≡ some (record g { members = ms })
unfolding rebalance_group
rebalance_group-eq g partitions ms h e = ground (arith, e)

rebalance_group-empty :
    (g : ConsumerGroup) (partitions : List String)
    → length g.members ≡ 0
    → rebalance_group g partitions ≡ some g
unfolding rebalance_group
rebalance_group-empty g partitions h = rw h refl

Covers-cons :
    (ids : List String) (j : String) (n : GroupMember) (ms : Map GroupMember)
    → Covers ids ms
    → Covers ids ((j, n) ∷ ms)
unfolding find
Covers-cons [] j n ms c = tt
Covers-cons (id ∷ ids) j n ms ((m, e), c) = (
  elim (Bool-cases (str_eq j id)) [ inl same ↦ (n, rw same refl) | inr other ↦ (m, rw other e) ],
  Covers-cons ids j n ms c,
)

Covers-keys : (ms : Map GroupMember) → Covers (keys ms) (clear_parts ms)
unfolding find
Covers-keys [] = tt
Covers-keys ((id, m) ∷ ms) = (
  (cleared m, rw (eq_refl id) refl),
  Covers-cons (keys ms) id (cleared m) (clear_parts ms) (Covers-keys ms),
)

-- Rebalancing does not fault, and afterwards each member has exactly the partitions, in order, whose number modulo the number of members is its place among the sorted member names, whatever it had before.
pub rebalance-Given :
    (g : ConsumerGroup) (partitions : List String)
    → (g' : ConsumerGroup) × (rebalance_group g partitions ≡ some g')
      × (g'.generation ≡ g.generation)
      × ((id : String) (m : GroupMember)
          → find id g.members ≡ some m
          → find id g'.members
            ≡ some (record m {
              assigned_parts = parts_of (sort_strings (keys g.members)) id 0 partitions;
            }))
rebalance-Given g partitions = elim (dec_lt 0 (length g.members)) [
  | no h ↦ (
    g,
    rebalance_group-empty g partitions (omega arith),
    refl,
    λ id m e. absurd (omega (arith, find-found id g.members e)),
  )
  | yes h ↦
      let ids = sort_strings (keys g.members) in
      let (ms, e, given) =
        assign_parts-Given ids 0 partitions (clear_parts g.members)
          (omega (arith, length-keys g.members, length-sort_strings (keys g.members)))
          (sort_strings-All (λ id. (m : GroupMember) × (find id (clear_parts g.members) ≡ some m))
            (keys g.members) (Covers-keys g.members)) in
      (
        record g { members = ms },
        rebalance_group-eq g partitions ms h e,
        refl,
        λ id m f. given id (cleared m) (find-clear_parts id g.members ∙ ap (Option.map cleared) f),
      )
]
