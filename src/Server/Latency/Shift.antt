-- ===== src/Server/Latency/Shift.antt =====
-- The insertion sort of `Percentiles` in cmd/node/main.go: its array loop is the insertion into a list
-- that is kept from its last element down.
use mathlib.Core.List.{Perm}
use mathlib.Core.List.Perm as Perm
use aegis_log.Common.{
  ℕ, suc, ◌+◌, ◌≡◌, refl, sym, ap, ◌∙◌, arith, Bool, some, List, [], ◌∷◌, length, get_elem?,
  if◌then◌else◌, Bool-cases, inl, inr,
}
use aegis_log.Server.Latency.{write, shift, sort_from}

module _ {ℓ} {A : Type ℓ} where
  -- The elements of the first list in reverse, then the second.
  abbrev pub onto : List A → List A → List A
  onto [] ys = ys
  onto (x ∷ xs) ys = onto xs (x ∷ ys)

  pub length-onto : (xs ys : List A) → length (onto xs ys) ≡ length xs + length ys
  length-onto [] ys = omega arith
  length-onto (x ∷ xs) ys = omega (arith, length-onto xs (x ∷ ys))

  get_elem?-onto :
      (xs ys : List A) (k : ℕ) → get_elem? (onto xs ys) (length xs + k) ≡ get_elem? ys k
  get_elem?-onto [] ys k = ap (get_elem? ys) (omega arith)
  get_elem?-onto (x ∷ xs) ys k =
      let e : suc (length xs) + k ≡ length xs + suc k = omega arith in
      ap (get_elem? (onto xs (x ∷ ys))) e ∙ get_elem?-onto xs (x ∷ ys) (suc k)

  get_elem?-front :
      (xs : List A) (y : A) (ys : List A) → get_elem? (onto xs (y ∷ ys)) (length xs) ≡ some y
  get_elem?-front xs y ys =
      let e : length xs ≡ length xs + 0 = omega arith in
      ap (get_elem? (onto xs (y ∷ ys))) e ∙ get_elem?-onto xs (y ∷ ys) 0

  write-onto :
      (xs ys zs : List A) (k : ℕ) (x : A)
      → write k x ys ≡ some zs
      → write (length xs + k) x (onto xs ys) ≡ some (onto xs zs)
  unfolding write
  write-onto [] ys zs k x h = ap (λ i. write i x ys) (omega arith) ∙ h
  write-onto (y ∷ xs) ys zs k x h =
      let e : suc (length xs) + k ≡ length xs + suc k = omega arith in
      ap (λ i. write i x (onto xs (y ∷ ys))) e
      ∙ write-onto xs (y ∷ ys) (y ∷ zs) (suc k) x (rw (h) refl)

  Perm-onto : (xs ys zs : List A) → Perm ys zs → Perm (onto xs ys) (onto xs zs)
  Perm-onto [] ys zs p = p
  Perm-onto (x ∷ xs) ys zs p = Perm-onto xs (x ∷ ys) (x ∷ zs) (Perm.cons x p)

  module _ (above : A → A → Bool) where
    -- Insertion into a list whose last element stands first.
    unfoldable pub insert_down : A → List A → List A
    insert_down key [] = key ∷ []
    insert_down key (x ∷ xs) = if above x key then x ∷ insert_down key xs else key ∷ (x ∷ xs)

    shift-eq :
        (key : A) (down : List A) (hole : A) (rest : List A)
        → shift above key (length down) (onto down (hole ∷ rest))
          ≡ some (onto (insert_down key down) rest)
    unfolding shift insert_down write
    shift-eq key [] hole rest = refl
    shift-eq key (x ∷ down) hole rest =
        let front = get_elem?-front down x (hole ∷ rest) in
        let at : length down + 1 ≡ suc (length down) = omega arith in
        elim (Bool-cases (above x key)) [
          | inl moves ↦
              let moved : write (suc (length down)) x (onto down (x ∷ (hole ∷ rest)))
                  ≡ some (onto down (x ∷ (x ∷ rest))) =
                ap (λ i. write i x (onto down (x ∷ (hole ∷ rest)))) (sym at)
                ∙ write-onto down (x ∷ (hole ∷ rest)) (x ∷ (x ∷ rest)) 1 x refl in
              rw (front, moves, moved) (shift-eq key down x (x ∷ rest))
          | inr stops ↦
              let put : write (suc (length down)) key (onto down (x ∷ (hole ∷ rest)))
                  ≡ some (onto down (x ∷ (key ∷ rest))) =
                ap (λ i. write i key (onto down (x ∷ (hole ∷ rest)))) (sym at)
                ∙ write-onto down (x ∷ (hole ∷ rest)) (x ∷ (key ∷ rest)) 1 key refl in
              rw (front, stops, put) refl
        ]

    unfoldable pub insert_all : List A → List A → List A
    insert_all down [] = down
    insert_all down (x ∷ xs) = insert_all (insert_down x down) xs

    pub length-insert_down :
        (key : A) (down : List A) → length (insert_down key down) ≡ suc (length down)
    unfolding insert_down
    length-insert_down key [] = refl
    length-insert_down key (x ∷ down) = ground (arith, length-insert_down key down)

    pub sort_from-eq :
        (rest down : List A)
        → sort_from above (length down) (length rest) (onto down rest)
          ≡ some (onto (insert_all down rest) [])
    unfolding sort_from insert_all
    sort_from-eq [] down = refl
    sort_from-eq (x ∷ rest) down =
        let len : length down + 1 ≡ length (insert_down x down) =
          omega (arith, length-insert_down x down) in
        rw (get_elem?-front down x rest, shift-eq x down x rest, len)
          (sort_from-eq rest (insert_down x down))

    pub insert_down-Perm :
        (key : A) (down rest : List A)
        → Perm (onto (insert_down key down) rest) (onto down (key ∷ rest))
    unfolding insert_down
    insert_down-Perm key [] rest = Perm.refl (key ∷ rest)
    insert_down-Perm key (x ∷ down) rest = elim (Bool-cases (above x key)) [
      | inl moves ↦ rw (moves) (
          Perm.trans (insert_down-Perm key down (x ∷ rest))
            (Perm-onto down (key ∷ (x ∷ rest)) (x ∷ (key ∷ rest)) (Perm.swap x key rest)))
      | inr stops ↦ rw (stops) (Perm.refl (onto down (x ∷ (key ∷ rest))))
    ]

    pub insert_all-Perm :
        (rest down : List A) → Perm (onto (insert_all down rest) []) (onto down rest)
    unfolding insert_all
    insert_all-Perm [] down = Perm.refl (onto down [])
    insert_all-Perm (x ∷ rest) down =
        Perm.trans (insert_all-Perm rest (insert_down x down)) (insert_down-Perm x down rest)
