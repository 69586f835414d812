-- ===== src/Storage/Index/Content.antt =====
-- The entries that the bytes of a sparse index hold (storage/index.go).
use aegis_log.Common.{
  ℕ, zero, suc, ◌+◌, ◌*◌, ◌<◌, ◌≡◌, refl, ap, arith, some, List, [], ◌∷◌, ◌++◌, ltb, length,
  get_elem?, IsU32, be32, read_be-be32, length-append,
}
use mathlib.Core.List.{append_assoc}
use aegis_log.Storage.Mapped.{range-append}
use aegis_log.Storage.Index.{SparseIndex, index_entry_size, uint32_at, entry_above}

-- An entry: the relative offset and the physical position.
abbrev pub Entry : Type 0
Entry = ℕ × ℕ

-- The layout of the entries in the file.
abbrev pub encode_entries : List Entry → List ℕ
encode_entries [] = []
encode_entries ((rel, pos) ∷ es) = be32 rel ++ (be32 pos ++ encode_entries es)

-- The mapped bytes are the entries and room for the rest; both numbers of each entry have 32 bits.
pub record Holds (idx : SparseIndex) (es : List Entry) (rest : List ℕ) : Type 0 where
  pub layout : idx.bytes ≡ encode_entries es ++ rest
  pub count : idx.entry_count ≡ length es
  pub room : length es * 8 + length rest ≡ idx.max_entries * 8
  pub small : (i : ℕ) (rel pos : ℕ) → get_elem? es i ≡ some (rel, pos) → IsU32 rel × IsU32 pos

pub length-encode_entries : (es : List Entry) → length (encode_entries es) ≡ length es * 8
length-encode_entries [] = refl
length-encode_entries ((rel, pos) ∷ es) = omega (arith, length-encode_entries es)

pub encode_entries-append :
    (es fs : List Entry) → encode_entries (es ++ fs) ≡ encode_entries es ++ encode_entries fs
encode_entries-append [] fs = refl
encode_entries-append ((rel, pos) ∷ es) fs =
    ap (λ t. be32 rel ++ (be32 pos ++ t)) (encode_entries-append es fs)

uint32_at-append :
    (pre rest : List ℕ) (at v : ℕ)
    → at ≡ length pre
    → IsU32 v
    → uint32_at (pre ++ (be32 v ++ rest)) at ≡ some v
unfolding uint32_at
uint32_at-append pre rest at v e h =
    rw (range-append pre (be32 v) rest at (at + 4) e (omega arith)) (ap some (read_be-be32 v h))

-- Where the entry of a number stands.
split_at :
    (es : List Entry) (i rel pos : ℕ)
    → get_elem? es i ≡ some (rel, pos)
    → (pre post : List ℕ) × (i * 8 ≡ length pre)
      × (encode_entries es ≡ pre ++ (be32 rel ++ (be32 pos ++ post)))
split_at [] i rel pos e = cc
split_at ((r, p) ∷ es) zero rel pos e =
    let er : r ≡ rel = cc in
    let ep : p ≡ pos = cc in ([], encode_entries es, refl, rw (er, ep) refl)
split_at ((r, p) ∷ es) (suc i) rel pos e =
    let (pre, post, len, eq) = split_at es i rel pos e in
    (be32 r ++ (be32 p ++ pre), post, omega (arith, len), ap (λ t. be32 r ++ (be32 p ++ t)) eq)

module _ (idx : SparseIndex) (es : List Entry) (rest : List ℕ) (held : Holds idx es rest) where
  pub rel_at :
      (i rel pos : ℕ)
      → get_elem? es i ≡ some (rel, pos)
      → uint32_at idx.bytes (i * index_entry_size) ≡ some rel
  rel_at i rel pos e =
      let (pre, post, len, eq) = split_at es i rel pos e in
      let (small_rel, small_pos) = held.small i rel pos e in
      rw (held.layout, eq, append_assoc pre (be32 rel ++ (be32 pos ++ post)) rest)
        (uint32_at-append pre (be32 pos ++ (post ++ rest)) (i * 8) rel len small_rel)

  pub pos_at :
      (i rel pos : ℕ)
      → get_elem? es i ≡ some (rel, pos)
      → uint32_at idx.bytes (i * index_entry_size + 4) ≡ some pos
  pos_at i rel pos e =
      let (pre, post, len, eq) = split_at es i rel pos e in
      let (small_rel, small_pos) = held.small i rel pos e in
      rw (held.layout, eq, append_assoc pre (be32 rel ++ (be32 pos ++ post)) rest)
        (rw (← append_assoc pre (be32 rel) (be32 pos ++ (post ++ rest))) (
          uint32_at-append (pre ++ be32 rel) (post ++ rest) (i * 8 + 4) pos
            (omega (arith, length-append pre (be32 rel))) small_pos))

  pub above_at :
      (target i rel pos : ℕ)
      → get_elem? es i ≡ some (rel, pos)
      → entry_above idx target i ≡ some (ltb target rel)
  unfolding entry_above
  above_at target i rel pos e = rw (rel_at i rel pos e) refl

pub entry_exists :
    (es : List Entry) (i : ℕ) → i < length es → (r p : ℕ) × (get_elem? es i ≡ some (r, p))
entry_exists [] i h = absurd (omega arith)
entry_exists ((r, p) ∷ es) zero h = (r, p, refl)
entry_exists (e ∷ es) (suc i) h = entry_exists es i (omega arith)

pub entry_bound : (es : List Entry) (i : ℕ) {e : Entry} → get_elem? es i ≡ some e → i < length es
entry_bound [] i h = cc
entry_bound (x ∷ es) zero h = omega arith
entry_bound (x ∷ es) (suc i) h = omega (arith, entry_bound es i h)
