-- ===== src/Consumer/Tests.antt =====
-- Runs of the consumer groups on small data.
use Prim.Native.String.{String}
use text.Mathlib.Text.{◌==◌ as str_eq}
use text.Mathlib.TextEquality.{eq_iff}
use mathlib.Core.Path.{subst}
use mathlib.Core.Logic.{◌↔◌}
use aegis_log.Common.{
  ℕ, ◌≡◌, sym, ap, ◌<◌, refl, arith, false, ◌&&◌, Option, some, none, List, [], ◌∷◌, ◌==◌,
  if◌then◌else◌, ok, length,
}
use aegis_log.Common.Maps.{Map, find, put, keys}
use aegis_log.Consumer.{
  OffsetRecord, GroupMember, ConsumerGroup, Coordinator, Written, sort_strings, insert_string,
  rebalance_group, assign_parts, commit_offset, group_or_new, save_offset, fetch_offset,
}
use aegis_log.Consumer.Recover.{recover_offsets, drop_cr}
use aegis_log.Consumer.Share.{parts_of, rebalance-Given}
use aegis_log.Consumer.Offsets.Durable.{IsCodec, IsLine, record_of}
use aegis_log.Consumer.Offsets.Restart.{
  Reach, here, next, commit, first_start, restarted, restart_keeps_offsets,
}

abbrev member : String → GroupMember
member id = record { id = id; assigned_parts = "old" ∷ []; last_heartbeat = 3 }

abbrev two_members : ConsumerGroup
two_members = record {
  id = "g";
  members = ("b", member "b") ∷ ("a", member "a") ∷ [];
  offsets = [];
  generation = 2;
}

abbrev three_parts : List String
three_parts = "p0" ∷ "p1" ∷ "p2" ∷ []

-- The first member in order gets the first and the third partition.
shared_out :
    rebalance_group two_members three_parts
    ≡ some (record two_members {
      members =
          ("b", record (member "b") { assigned_parts = "p1" ∷ [] })
          ∷ ("a", record (member "a") { assigned_parts = "p0" ∷ "p2" ∷ [] })
          ∷ [];
    })
unfolding rebalance_group assign_parts sort_strings insert_string find put
shared_out = refl

rebalance-Given_example :
    (g' : ConsumerGroup) × (rebalance_group two_members three_parts ≡ some g')
    × (g'.generation ≡ 2)
    × ((id : String) (m : GroupMember)
        → find id two_members.members ≡ some m
        → find id g'.members
          ≡ some (record m {
            assigned_parts = parts_of (sort_strings (keys two_members.members)) id 0 three_parts;
          }))
rebalance-Given_example = rebalance-Given two_members three_parts

-- A codec that knows one record.
abbrev the_record : OffsetRecord
the_record = record_of "g" "p" 7 1

abbrev encode_one : OffsetRecord → Option (List ℕ)
encode_one r =
    if (str_eq r.group_id "g" && str_eq r.partition "p") && (r.offset == 7 && r.timestamp == 1)
    then some (0x7B ∷ 0x7D ∷ [])
    else none

abbrev decode_one : List ℕ → Option OffsetRecord
decode_one line = some the_record

encode_one-line :
    (r : OffsetRecord) (line : List ℕ) → encode_one r ≡ some line → (0x7B ∷ 0x7D ∷ []) ≡ line
encode_one-line r line e = ground arith

encode_one-record : (r : OffsetRecord) (line : List ℕ) → encode_one r ≡ some line → the_record ≡ r
encode_one-record r line e =
    let names : (r.group_id ≡ "g") × (r.partition ≡ "p") =
      ground (arith, eq_iff r.group_id "g", eq_iff r.partition "p") in
    let numbers : (r.offset ≡ 7) × (r.timestamp ≡ 1) = ground arith in
    λ i. record {
      group_id = sym names.0 i;
      partition = sym names.1 i;
      offset = sym numbers.0 i;
      timestamp = sym numbers.1 i;
    }

braces-IsLine : IsLine (0x7B ∷ 0x7D ∷ [])
braces-IsLine = ((λ e. absurd (omega arith)), ((λ e. absurd (omega arith)), tt))

encode_one-IsCodec : IsCodec encode_one decode_one
unfolding drop_cr
encode_one-IsCodec = record {
  round_trip = λ r line e. ap (λ x. some x) (encode_one-record r line e);
  one_line = λ r line e. subst IsLine (encode_one-line r line e) braces-IsLine;
  not_empty = λ r line e. subst (λ l. 0 < length l) (encode_one-line r line e) (omega arith);
  no_cr = λ r line e. subst (λ l. drop_cr l ≡ l) (encode_one-line r line e) refl;
}

abbrev after_commit : Coordinator
after_commit = record {
  groups = ("g", record { id = "g"; members = []; offsets = ("p", 7) ∷ []; generation = 0 }) ∷ [];
  session_timeout = 5;
  file = 0x7B ∷ 0x7D ∷ 10 ∷ [];
  writer_failed = false;
}

one_commit :
    commit_offset encode_one (first_start 5) "g" "p" 7 1 Written.whole ≡ (after_commit, none)
unfolding commit_offset save_offset group_or_new find put
one_commit = refl

after_commit-Reach : Reach encode_one (first_start 5) after_commit
after_commit-Reach = next here (
    commit "g" "p" 7 1 Written.whole
      (λ line e. subst (λ l. length l < 65536) (encode_one-line the_record line e) (omega arith))
      one_commit)

restart_keeps_offsets_example :
    (groups : Map ConsumerGroup) × (recover_offsets decode_one (0x7B ∷ 0x7D ∷ 10 ∷ []) ≡ ok groups)
    × ((group_id partition : String) (offset : ℕ)
        → (fetch_offset (restarted after_commit groups) group_id partition ≡ ok offset)
          ↔ (fetch_offset after_commit group_id partition ≡ ok offset))
restart_keeps_offsets_example =
    restart_keeps_offsets encode_one decode_one encode_one-IsCodec 5 after_commit after_commit-Reach
