-- ===== src/Consumer/Names.antt =====
-- The sorted names of the members of a group (consumer/group_coordinator.go).
use Prim.Native.String.{String, compare}
use Prim.Native.Nat.{Ordering}
use aegis_log.Common.{suc, ◌≡◌, refl, arith, List, [], ◌∷◌, length, All}
use aegis_log.Common.Maps.{Map, keys}
use aegis_log.Consumer.{GroupMember, insert_string, sort_strings}

module _ (P : String → Type 0) where
  pub insert_string-All :
      (s : String) (ss : List String) → P s → All P ss → All P (insert_string s ss)
  unfolding insert_string
  insert_string-All s [] p ps = (p, tt)
  insert_string-All s (t ∷ ts) p (q, qs) =
      elim (compare s t)
        as (λ o. All P (elim o [ Ordering.gt ↦ t ∷ insert_string s ts | _ ↦ s ∷ (t ∷ ts) ])) [
          | Ordering.gt ↦ (q, insert_string-All s ts p qs)
          | Ordering.lt ↦ (p, (q, qs))
          | Ordering.eq ↦ (p, (q, qs))
        ]

  pub sort_strings-All : (ss : List String) → All P ss → All P (sort_strings ss)
  unfolding sort_strings
  sort_strings-All [] ps = tt
  sort_strings-All (s ∷ ss) (p, ps) =
      insert_string-All s (sort_strings ss) p (sort_strings-All ss ps)

pub length-insert_string :
    (s : String) (ss : List String) → length (insert_string s ss) ≡ suc (length ss)
unfolding insert_string
length-insert_string s [] = refl
length-insert_string s (t ∷ ts) = ground (arith, length-insert_string s ts)

pub length-sort_strings : (ss : List String) → length (sort_strings ss) ≡ length ss
unfolding sort_strings
length-sort_strings [] = refl
length-sort_strings (s ∷ ss) =
    omega (arith, length-sort_strings ss, length-insert_string s (sort_strings ss))

pub length-keys : (ms : Map GroupMember) → length (keys ms) ≡ length ms
length-keys [] = refl
length-keys ((id, m) ∷ ms) = omega (arith, length-keys ms)
