-- ===== src/Storage/Index/Grow.antt =====
-- What `Append` of storage/index.go adds to an index.
use aegis_log.Common.{
  ℕ, zero, suc, ◌+◌, ◌*◌, ◌≤◌, ◌<◌, ◌≡◌, ◌∙◌, refl, ap, sym, arith, some, List, [], ◌∷◌, ◌++◌, ◌⊎◌,
  inl, inr, length, get_elem?, IsU32, be32, length-append, drop, drop_all, length-drop, ok, lt→leb,
}
use mathlib.Core.List.{append_assoc}
use aegis_log.Storage.Mapped.{write_at, write_at-append}
use aegis_log.Storage.Index.{SparseIndex, append}
use aegis_log.Storage.Index.Content.{
  Entry, encode_entries, Holds, length-encode_entries, encode_entries-append,
}

-- The last entry of a longer list is the new one, the others stand as they were.
pub entry-append :
    (es : List Entry) (r p i r' p' : ℕ)
    → get_elem? (es ++ ((r, p) ∷ [])) i ≡ some (r', p')
    → (get_elem? es i ≡ some (r', p')) ⊎ ((r ≡ r') × (p ≡ p'))
entry-append [] r p zero r' p' e = inr (cc, cc)
entry-append [] r p (suc i) r' p' e = cc
entry-append (x ∷ es) r p zero r' p' e = inl e
entry-append (x ∷ es) r p (suc i) r' p' e = entry-append es r p i r' p' e

drop-drop : (n k : ℕ) (xs : List ℕ) → drop k (drop n xs) ≡ drop (n + k) xs
drop-drop zero k xs = ap (λ m. drop m xs) (omega arith)
drop-drop (suc n) k [] = drop_all k [] (omega arith) ∙ sym (drop_all (suc n + k) [] (omega arith))
drop-drop (suc n) k (x ∷ xs) =
    let p : suc n + k ≡ suc (n + k) = omega arith in rw p (drop-drop n k xs)

-- The bytes once both numbers are written behind the entries.
abbrev written : List Entry → List ℕ → ℕ → ℕ → List ℕ
written es rest rel pos = (encode_entries es ++ be32 rel) ++ (be32 pos ++ drop 4 (drop 4 rest))

write_rel :
    (es : List Entry) (rest : List ℕ) (rel at : ℕ)
    → at ≡ length es * 8
    → 8 ≤ length rest
    → write_at (encode_entries es ++ rest) at (be32 rel)
      ≡ some ((encode_entries es ++ be32 rel) ++ drop 4 rest)
write_rel es rest rel at e h = rw (append_assoc (encode_entries es) (be32 rel) (drop 4 rest)) (
    write_at-append (encode_entries es) rest (be32 rel) at (omega (arith, length-encode_entries es))
      (omega arith))

write_pos :
    (es : List Entry) (rest : List ℕ) (rel pos at : ℕ)
    → at ≡ length es * 8
    → 8 ≤ length rest
    → write_at ((encode_entries es ++ be32 rel) ++ drop 4 rest) (at + 4) (be32 pos)
      ≡ some (written es rest rel pos)
write_pos es rest rel pos at e h =
    write_at-append (encode_entries es ++ be32 rel) (drop 4 rest) (be32 pos) (at + 4)
      (omega (arith, length-encode_entries es, length-append (encode_entries es) (be32 rel)))
      (omega (arith, length-drop 4 rest))

written-eq :
    (es : List Entry) (rest : List ℕ) (rel pos : ℕ)
    → written es rest rel pos ≡ encode_entries (es ++ ((rel, pos) ∷ [])) ++ drop 8 rest
written-eq es rest rel pos =
    rw
      (
        drop-drop 4 4 rest,
        encode_entries-append es ((rel, pos) ∷ []),
        append_assoc (encode_entries es) (be32 rel) (be32 pos ++ drop 8 rest),
        append_assoc (encode_entries es) (be32 rel ++ (be32 pos ++ [])) (drop 8 rest),
      )
      refl

append-eq :
    (idx : SparseIndex) (es : List Entry) (rest : List ℕ)
    → Holds idx es rest
    → (rel pos : ℕ) → length es < idx.max_entries
    → append idx rel pos
      ≡ some
          (ok (record idx { bytes = written es rest rel pos; entry_count = idx.entry_count + 1 }))
unfolding append
append-eq idx es rest held rel pos room =
    let at : idx.entry_count * 8 ≡ length es * 8 = omega (arith, held.count) in
    let enough : 8 ≤ length rest = omega (arith, held.room) in
    rw
      (
        lt→leb idx.max_entries idx.entry_count (omega (arith, held.count)),
        held.layout,
        write_rel es rest rel (idx.entry_count * 8) at enough,
        write_pos es rest rel pos (idx.entry_count * 8) at enough,
      )
      refl

-- While there is room, `Append` adds an entry of two 32-bit numbers behind the others, and the index holds the longer list.
pub append-Holds :
    (idx : SparseIndex) (es : List Entry) (rest : List ℕ)
    → Holds idx es rest
    → (rel pos : ℕ) → length es < idx.max_entries
    → IsU32 rel
    → IsU32 pos
    → (idx' : SparseIndex) × (append idx rel pos ≡ some (ok idx'))
      × (idx'.max_entries ≡ idx.max_entries)
      × Holds idx' (es ++ ((rel, pos) ∷ [])) (drop 8 rest)
append-Holds idx es rest held rel pos room small_rel small_pos = (
  record idx { bytes = written es rest rel pos; entry_count = idx.entry_count + 1 },
  append-eq idx es rest held rel pos room,
  refl,
  record {
    layout = written-eq es rest rel pos;
    count = omega (arith, held.count, length-append es ((rel, pos) ∷ []));
    room = omega (arith, held.room, length-append es ((rel, pos) ∷ []), length-drop 8 rest);
    small = λ i r p e. elim (entry-append es rel pos i r p e) [
      | inl old ↦ held.small i r p old
      | inr (same_rel, same_pos) ↦ (omega arith, omega arith)
    ];
  },
)
