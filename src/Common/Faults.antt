-- ===== src/Common/Faults.antt =====
-- Steps that may stop the program: `none` is a Go run-time panic, such as an index out of range.
use mathlib.Core.Path.{◌≡◌, refl}
use mathlib.Core.Option.{Option, none, some}
use mathlib.Core.List.{List, [], ◌∷◌}
use aegis_log.Common.Lists.{All}

infixl 5 ◌>>=◌
abbrev pub ◌>>=◌ {ℓ κ} : {A : Type ℓ} {B : Type κ} → Option A → (A → Option B) → Option B
none >>= f = none
some a >>= f = f a

-- A call for each element, in order.
unfoldable pub map_each {ℓ κ} :
    {A : Type ℓ} {B : Type κ} → (A → Option B) → List A → Option (List B)
map_each f [] = some []
map_each f (x ∷ xs) = do y ← f x; ys ← map_each f xs; some (y ∷ ys)

-- No call fails when none fails on its own, and what holds of each result holds of all.
pub map_each_total {ℓ κ μ} :
    {A : Type ℓ} {B : Type κ} (P : B → Type μ) (f : A → Option B) (xs : List A)
    → ((x : A) → (y : B) × (f x ≡ some y) × P y)
    → (ys : List B) × (map_each f xs ≡ some ys) × All P ys
unfolding map_each
map_each_total P f [] h = ([], refl, tt)
map_each_total P f (x ∷ xs) h =
    let (y, e, p) = h x in
    let (ys, es, ps) = map_each_total P f xs h in (y ∷ ys, rw (e, es), (p, ps))

-- Two lists of one length whose elements are related one by one.
abbrev pub Paired {ℓ κ} : {A : Type ℓ} {B : Type κ} → (A → B → Type 0) → List A → List B → Type 0
Paired R [] [] = Unit {0}
Paired R [] (y ∷ ys) = ⊥
Paired R (x ∷ xs) [] = ⊥
Paired R (x ∷ xs) (y ∷ ys) = R x y × Paired R xs ys

-- No call fails when none fails on its own; each result is related to its element, and what holds of each result holds of all.
pub map_each-Paired {ℓ κ ν} :
    {A : Type ℓ} {B : Type κ} (R : A → B → Type 0) (P : B → Type ν) (f : A → Option B) (xs : List A)
    → ((x : A) → (y : B) × (f x ≡ some y) × P y × R x y)
    → (ys : List B) × (map_each f xs ≡ some ys) × All P ys × Paired R xs ys
unfolding map_each
map_each-Paired R P f [] h = ([], refl, tt, tt)
map_each-Paired R P f (x ∷ xs) h =
    let (y, e, p, r) = h x in
    let (ys, es, ps, rs) = map_each-Paired R P f xs h in (y ∷ ys, rw (e, es), (p, ps), (r, rs))
