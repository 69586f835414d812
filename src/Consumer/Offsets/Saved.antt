-- ===== src/Consumer/Offsets/Saved.antt =====
-- Which operations of consumer/group_coordinator.go change a saved offset in memory.
use Prim.Native.String.{String}
use text.Mathlib.Text.{◌==◌ as str_eq}
use text.Mathlib.TextEquality.{eq_iff}
use mathlib.Core.Path.{subst}
use aegis_log.Common.{
  ℕ, ◌+◌, ◌↔◌, ◌≡◌, ◌∙◌, refl, ap, arith, ◌&&◌, Option, some, List, [], ◌∷◌, if◌then◌else◌, ok,
  Bool-cases, Option-cases, inl, inr, u64,
}
use aegis_log.Common.Faults.{◌>>=◌}
use aegis_log.Common.Maps.{Map, find, put, find-put, remove}
use aegis_log.Consumer.{
  GroupMember, ConsumerGroup, Coordinator, group_or_new, save_offset, rebalance_group, join_group,
  leave_group, heartbeat, evict_groups, fetch_offset,
}

-- The offset that is saved for a group and a partition.
unfoldable pub saved : Map ConsumerGroup → String → String → Option ℕ
saved groups group_id partition = find group_id groups >>= λ g. find partition g.offsets

saved-new :
    (groups : Map ConsumerGroup) (k : String) (partition : String)
    → find partition (group_or_new groups k).offsets ≡ saved groups k partition
unfolding saved group_or_new find
saved-new groups k partition = ground arith

known-offsets :
    (groups : Map ConsumerGroup) (k : String) (g : ConsumerGroup)
    → find k groups ≡ some g
    → g.offsets ≡ (group_or_new groups k).offsets
unfolding group_or_new
known-offsets groups k g e = rw (group_or_new, e) refl

-- A group put back with the offsets that it had changes nothing.
pub saved-put :
    (groups : Map ConsumerGroup) (k : String) (g : ConsumerGroup)
    → g.offsets ≡ (group_or_new groups k).offsets
    → (group_id partition : String)
    → saved (put k g groups) group_id partition ≡ saved groups group_id partition
unfolding saved
saved-put groups k g e group_id partition = elim (Bool-cases (str_eq k group_id)) [
  | inl same ↦
      let at : find group_id (put k g groups) ≡ some g =
        ground (arith, find-put k group_id g groups) in
      let k_eq = (eq_iff k group_id).0 same in
      let here : find partition g.offsets ≡ find partition (group_or_new groups k).offsets =
        ap (find partition) e in
      rw at (here ∙ saved-new groups k partition ∙ ap (λ j. saved groups j partition) k_eq)
  | inr other ↦
      let at : find group_id (put k g groups) ≡ find group_id groups =
        ground (arith, find-put k group_id g groups) in
      rw at refl
]

-- Saving an offset changes this one and no other.
pub saved-save_offset :
    (groups : Map ConsumerGroup) (k p : String) (offset : ℕ) (group_id partition : String)
    → saved (save_offset groups k p offset) group_id partition ≡ (
        if str_eq k group_id && str_eq p partition
        then some offset
        else saved groups group_id partition)
unfolding saved save_offset
saved-save_offset groups k p offset group_id partition =
    let old = group_or_new groups k in
    let g : ConsumerGroup = record old { offsets = put p offset old.offsets } in
    elim (Bool-cases (str_eq k group_id)) [
      | inl same ↦
          let at : find group_id (put k g groups) ≡ some g =
            ground (arith, find-put k group_id g groups) in
          let k_eq = (eq_iff k group_id).0 same in
          let before : find partition old.offsets ≡ saved groups group_id partition =
            saved-new groups k partition ∙ ap (λ j. saved groups j partition) k_eq in
          rw (at, same, find-put p partition offset old.offsets, before) refl
      | inr other ↦
          let at : find group_id (put k g groups) ≡ find group_id groups =
            ground (arith, find-put k group_id g groups) in
          rw (at, other) refl
    ]

rebalance_group-offsets :
    (g g' : ConsumerGroup) (partitions : List String)
    → rebalance_group g partitions ≡ some g'
    → g'.offsets ≡ g.offsets
unfolding rebalance_group
rebalance_group-offsets g g' partitions e = ground arith

-- A group that is rebalanced and put back keeps its offsets.
rebalanced-saved :
    (groups : Map ConsumerGroup) (k : String) (g g' : ConsumerGroup) (partitions : List String)
    → g.offsets ≡ (group_or_new groups k).offsets
    → rebalance_group g partitions ≡ some g'
    → (group_id partition : String)
    → saved (put k g' groups) group_id partition ≡ saved groups group_id partition
rebalanced-saved groups k g g' partitions same e =
    saved-put groups k g' (rebalance_group-offsets g g' partitions e ∙ same)

pub join_group-saved :
    (c c' : Coordinator) (k member_id : String) (available mine : List String) (now : ℕ)
    → join_group c k member_id available now ≡ some (c', mine)
    → (group_id partition : String)
    → saved c'.groups group_id partition ≡ saved c.groups group_id partition
unfolding join_group
join_group-saved c c' k member_id available mine now e group_id partition =
    let g = group_or_new c.groups k in
    let m : GroupMember = record { id = member_id; assigned_parts = []; last_heartbeat = now } in
    let joined : ConsumerGroup = record g {
      members = put member_id m g.members;
      generation = u64 (g.generation + 1);
    } in
    elim (Option-cases (rebalance_group joined available)) [
      | inl fault ↦ absurd (ground arith)
      | inr (g', r) ↦ elim (Option-cases (find member_id g'.members)) [
        | inl fault ↦ absurd (ground arith)
        | inr (m', f) ↦
            let put_back : put k g' c.groups ≡ c'.groups = ground arith in
            subst (λ gs. saved gs group_id partition ≡ saved c.groups group_id partition) put_back
              (rebalanced-saved c.groups k joined g' available refl r group_id partition)
      ]
    ]

pub leave_group-saved :
    (c c' : Coordinator) (k member_id : String) (available : List String)
    → leave_group c k member_id available ≡ some (ok c')
    → (group_id partition : String)
    → saved c'.groups group_id partition ≡ saved c.groups group_id partition
unfolding leave_group
leave_group-saved c c' k member_id available e group_id partition =
    elim (Option-cases (find k c.groups)) [
      | inl missing ↦ absurd (ground arith)
      | inr (g, known) ↦
          let left : ConsumerGroup = record g {
            members = remove member_id g.members;
            generation = u64 (g.generation + 1);
          } in
          elim (Option-cases (rebalance_group left available)) [
            | inl fault ↦ absurd (ground arith)
            | inr (g', r) ↦
                let put_back : put k g' c.groups ≡ c'.groups = ground arith in
                subst (λ gs. saved gs group_id partition ≡ saved c.groups group_id partition)
                  put_back
                  (rebalanced-saved c.groups k left g' available (known-offsets c.groups k g known)
                    r group_id partition)
          ]
    ]

pub heartbeat-saved :
    (c c' : Coordinator) (k member_id : String) (now : ℕ)
    → heartbeat c k member_id now ≡ ok c'
    → (group_id partition : String)
    → saved c'.groups group_id partition ≡ saved c.groups group_id partition
unfolding heartbeat
heartbeat-saved c c' k member_id now e group_id partition = elim (Option-cases (find k c.groups)) [
  | inl missing ↦ absurd (ground arith)
  | inr (g, known) ↦ elim (Option-cases (find member_id g.members)) [
    | inl missing ↦ absurd (ground arith)
    | inr (m, member) ↦
        let beaten : ConsumerGroup = record g {
          members = put member_id (record m { last_heartbeat = now }) g.members;
        } in
        let put_back : put k beaten c.groups ≡ c'.groups = ground arith in
        subst (λ gs. saved gs group_id partition ≡ saved c.groups group_id partition) put_back
          (saved-put c.groups k beaten (known-offsets c.groups k g known) group_id partition)
  ]
]

pub evict_groups-saved :
    (timeout now : ℕ) (groups : Map ConsumerGroup) (group_id partition : String)
    → saved (evict_groups timeout now groups) group_id partition ≡ saved groups group_id partition
unfolding evict_groups saved find
evict_groups-saved timeout now [] group_id partition = refl
evict_groups-saved timeout now ((id, g) ∷ groups) group_id partition =
    ground (arith, evict_groups-saved timeout now groups group_id partition)

-- `FetchOffset` answers with the saved offset.
pub fetch_offset-saved :
    (c : Coordinator) (group_id partition : String) (offset : ℕ)
    → (fetch_offset c group_id partition ≡ ok offset)
      ↔ (saved c.groups group_id partition ≡ some offset)
unfolding fetch_offset saved
fetch_offset-saved c group_id partition offset = ground arith
