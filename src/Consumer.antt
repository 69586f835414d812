-- ===== src/Consumer.antt =====
-- consumer/group_coordinator.go: the groups, their members and their saved offsets.
pub mod Names
pub mod Share
pub mod Recover
pub mod Offsets
pub mod Tests
use Prim.Native.String.{String, compare}
use Prim.Native.Nat.{Ordering}
use aegis_log.Common.{
  ℕ, ◌+◌, ◌-◌, ◌%◌, Bool, true, false, Option, some, none, List, [], ◌∷◌, ◌++◌, ltb, leb, ◌==◌,
  if◌then◌else◌, length, get_elem?, u64, take, Result, ok, err,
}
use aegis_log.Common.Faults.{◌>>=◌}
use aegis_log.Common.Maps.{Map, find, put, remove, keys}

pub record OffsetRecord : Type 0 where
  pub group_id : String
  pub partition : String
  pub offset : ℕ
  pub timestamp : ℕ

pub record GroupMember : Type 0 where
  pub id : String
  pub assigned_parts : List String
  pub last_heartbeat : ℕ

pub record ConsumerGroup : Type 0 where
  pub id : String
  pub members : Map GroupMember
  pub offsets : Map ℕ
  pub generation : ℕ

-- The three errors of the package, and what the JSON encoder, the file and the scanner may report.
pub data ConsumerError : Type 0 where
  group_not_found member_not_found no_offset_saved marshal_failed write_failed sync_failed
        token_too_long :
      ConsumerError

-- `file` is what the checkpoint file holds. A failed `bufio.Writer` takes no more writes.
pub record Coordinator : Type 0 where
  pub groups : Map ConsumerGroup
  pub session_timeout : ℕ
  pub file : List ℕ
  pub writer_failed : Bool

abbrev pub new_group : String → ConsumerGroup
new_group group_id = record { id = group_id; members = []; offsets = []; generation = 0 }

unfoldable pub group_or_new : Map ConsumerGroup → String → ConsumerGroup
group_or_new groups group_id = elim (find group_id groups) [
  | some g ↦ g
  | none ↦ new_group group_id
]

abbrev pub with_group : Coordinator → String → ConsumerGroup → Coordinator
with_group c group_id g = record c { groups = put group_id g c.groups }

-- `sort.Strings`
unfoldable pub insert_string : String → List String → List String
insert_string s [] = s ∷ []
insert_string s (t ∷ ts) = elim (compare s t) [
  | Ordering.gt ↦ t ∷ insert_string s ts
  | _ ↦ s ∷ (t ∷ ts)
]

unfoldable pub sort_strings : List String → List String
unfolding insert_string
sort_strings [] = []
sort_strings (s ∷ ss) = insert_string s (sort_strings ss)

abbrev pub clear_parts : Map GroupMember → Map GroupMember
clear_parts [] = []
clear_parts ((id, m) ∷ ms) = (id, record m { assigned_parts = [] }) ∷ clear_parts ms

-- The loop over the partitions from number `i` on.
unfoldable pub assign_parts :
    List String → ℕ → List String → Map GroupMember → Option (Map GroupMember)
assign_parts ids i [] ms = some ms
assign_parts ids i (part ∷ parts) ms = do
  target ← get_elem? ids (i % length ids)
  m ← find target ms
  assign_parts ids (i + 1) parts
      (put target (record m { assigned_parts = m.assigned_parts ++ (part ∷ []) }) ms)

unfoldable pub rebalance_group : ConsumerGroup → List String → Option ConsumerGroup
unfolding assign_parts sort_strings
rebalance_group g partitions =
    if length g.members == 0
    then some g
    else (assign_parts (sort_strings (keys g.members)) 0 partitions (clear_parts g.members)
        >>= λ ms. some (record g { members = ms }))

unfoldable pub join_group :
    Coordinator → String → String → List String → ℕ → Option (Coordinator × List String)
unfolding group_or_new rebalance_group
join_group c group_id member_id available now = do
  let g = group_or_new c.groups group_id
  let m : GroupMember = record { id = member_id; assigned_parts = []; last_heartbeat = now }
  let joined = record g { members = put member_id m g.members; generation = u64 (g.generation + 1) }
  g' ← rebalance_group joined available
  m' ← find member_id g'.members
  some (with_group c group_id g', m'.assigned_parts)

unfoldable pub leave_group :
    Coordinator → String → String → List String → Option (Result ConsumerError Coordinator)
unfolding rebalance_group
leave_group c group_id member_id available = elim (find group_id c.groups) [
  | none ↦ some (err group_not_found)
  | some g ↦
      rebalance_group
        (record g { members = remove member_id g.members; generation = u64 (g.generation + 1) })
        available
      >>= λ g'. some (ok (with_group c group_id g'))
]

unfoldable pub heartbeat : Coordinator → String → String → ℕ → Result ConsumerError Coordinator
heartbeat c group_id member_id now = elim (find group_id c.groups) [
  | none ↦ err group_not_found
  | some g ↦ elim (find member_id g.members) [
    | none ↦ err member_not_found
    | some m ↦ ok (
        with_group c group_id
          (record g { members = put member_id (record m { last_heartbeat = now }) g.members }))
  ]
]

-- One round of the eviction loop for a group: the members that stay, and whether one was removed.
unfoldable pub stay : ℕ → ℕ → Map GroupMember → Map GroupMember × Bool
stay timeout now [] = ([], false)
stay timeout now ((id, m) ∷ ms) =
    let rest = stay timeout now ms in
    if ltb timeout (now - m.last_heartbeat) then (rest.0, true) else ((id, m) ∷ rest.0, rest.1)

abbrev pub evict_group : ℕ → ℕ → ConsumerGroup → ConsumerGroup
evict_group timeout now g = record g {
  members = (stay timeout now g.members).0;
  generation = if (stay timeout now g.members).1 then u64 (g.generation + 1) else g.generation;
}

unfoldable pub evict_groups : ℕ → ℕ → Map ConsumerGroup → Map ConsumerGroup
unfolding stay
evict_groups timeout now [] = []
evict_groups timeout now ((id, g) ∷ gs) =
    (id, evict_group timeout now g) ∷ evict_groups timeout now gs

-- A tick of `rebalanceEvictionLoop`.
abbrev pub evict : Coordinator → ℕ → Coordinator
evict c now = record c { groups = evict_groups c.session_timeout now c.groups }

unfoldable pub fetch_offset : Coordinator → String → String → Result ConsumerError ℕ
fetch_offset c group_id partition = elim (find group_id c.groups) [
  | none ↦ err group_not_found
  | some g ↦ elim (find partition g.offsets) [
    | none ↦ err no_offset_saved
    | some offset ↦ ok offset
  ]
]

-- `g.Offsets[partition] = offset` in the group, which is made if it is not known.
unfoldable pub save_offset : Map ConsumerGroup → String → String → ℕ → Map ConsumerGroup
unfolding group_or_new
save_offset groups group_id partition offset =
    let g = group_or_new groups group_id in
    put group_id (record g { offsets = put partition offset g.offsets }) groups

-- How the write of a line ends: whole, cut after some bytes, or whole but not synced.
pub data Written : Type 0 where
  whole : Written
  cut : ℕ → Written
  not_synced : Written

-- `json.Marshal` of an OffsetRecord is a parameter.
module _ (marshal : OffsetRecord → Option (List ℕ)) where
  -- The coordinator afterwards, and the error if there is one; an unknown group is made either way.
  unfoldable pub commit_offset :
      Coordinator → String → String → ℕ → ℕ → Written → Coordinator × Option ConsumerError
  unfolding save_offset group_or_new
  commit_offset c group_id partition offset now written =
      let made = with_group c group_id (group_or_new c.groups group_id) in
      elim (marshal
        (record { group_id = group_id; partition = partition; offset = offset; timestamp = now })) [
          | none ↦ (made, some marshal_failed)
          | some line ↦ if c.writer_failed then (made, some write_failed) else (elim written [
            | cut n ↦ (
              record made { file = c.file ++ take n (line ++ (10 ∷ [])); writer_failed = true },
              some write_failed,
            )
            | not_synced ↦ (record made { file = c.file ++ (line ++ (10 ∷ [])) }, some sync_failed)
            | whole ↦ (
              record c {
                groups = save_offset c.groups group_id partition offset;
                file = c.file ++ (line ++ (10 ∷ []));
              },
              none,
            )
          ])
        ]
