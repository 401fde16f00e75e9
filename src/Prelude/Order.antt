-- ===== src/Prelude/Order.antt =====
-- `ORDER BY` with a Boolean order, as an insertion sort, and what it keeps.
use mathlib.Core.Path.{◌≡◌, refl, subst}
use mathlib.Core.Logic.{◌⊎◌, inl, inr}
use mathlib.Core.Bool.{Bool, true, false}
use mathlib.Core.Option.{Option, none, some, some-injective}
use mathlib.Core.List.{List, [], ◌∷◌}
use argus_web_intelligence.Prelude.Tests.{if◌then◌else◌, Bool-cases}
use argus_web_intelligence.Prelude.Lists.{All, All-map, All-keep, keep, take}
use Prim.Native.Nat.{ℕ, suc}
use native.Mathlib.Omega.{arith}

-- A total preorder, as a database sorts by.
pub record TotalOrder {ℓ} {A : Type ℓ} (le : A → A → Bool) : Type ℓ where
  pub total : (a b : A) → (le a b ≡ true) ⊎ (le b a ≡ true)
  pub trans : (a b c : A) → le a b ≡ true → le b c ≡ true → le a c ≡ true

module _ {ℓ} {A : Type ℓ} (le : A → A → Bool) where
  insert_by : A → List A → List A
  insert_by x [] = x ∷ []
  insert_by x (y ∷ ys) = if le x y then x ∷ y ∷ ys else y ∷ insert_by x ys

  unfoldable pub order_by : List A → List A
  unfolding insert_by
  order_by [] = []
  order_by (x ∷ xs) = insert_by x (order_by xs)

  abbrev pub first_row : List A → Option A
  first_row [] = none
  first_row (x ∷ xs) = some x

  -- Each element comes before all that follow it.
  abbrev pub Sorted : List A → Type 0
  Sorted [] = Unit {0}
  Sorted (x ∷ xs) = All (λ y. le x y ≡ true) xs × Sorted xs

module _ {ℓ κ} {A : Type ℓ} (le : A → A → Bool) (P : A → Type κ) where
  All-insert_by : (x : A) (ys : List A) → P x → All P ys → All P (insert_by le x ys)
  unfolding insert_by
  All-insert_by x [] px h = (px, tt)
  All-insert_by x (y ∷ ys) px h = go (le x y) (All-insert_by x ys px h.1)
    where
      go :
          (b : Bool)
          → All P (insert_by le x ys)
          → All P (if b then x ∷ y ∷ ys else y ∷ insert_by le x ys)
      go true r = (px, h)
      go false r = (h.0, r)

  All-insert_by_inv : (x : A) (ys : List A) → All P (insert_by le x ys) → P x × All P ys
  unfolding insert_by
  All-insert_by_inv x [] h = h
  All-insert_by_inv x (y ∷ ys) h = go (le x y) (All-insert_by_inv x ys) h
    where
      go :
          (b : Bool)
          → (All P (insert_by le x ys) → P x × All P ys)
          → All P (if b then x ∷ y ∷ ys else y ∷ insert_by le x ys)
          → P x × All P (y ∷ ys)
      go true r k = (k.0, k.1)
      go false r k = let (px, rest) = r k.1 in (px, (k.0, rest))

  -- Sorting neither adds a row nor loses one, as far as a predicate can tell.
  pub All-order_by : (xs : List A) → All P xs → All P (order_by le xs)
  unfolding order_by
  All-order_by [] h = tt
  All-order_by (x ∷ xs) h = All-insert_by x (order_by le xs) h.0 (All-order_by xs h.1)

  pub All-order_by_inv : (xs : List A) → All P (order_by le xs) → All P xs
  unfolding order_by
  All-order_by_inv [] h = tt
  All-order_by_inv (x ∷ xs) h =
      let (px, rest) = All-insert_by_inv x (order_by le xs) h in (px, All-order_by_inv xs rest)

module _ {ℓ} {A : Type ℓ} (le : A → A → Bool) (o : TotalOrder le) where
  insert_by-Sorted : (x : A) (ys : List A) → Sorted le ys → Sorted le (insert_by le x ys)
  unfolding insert_by
  insert_by-Sorted x [] s = (tt, tt)
  insert_by-Sorted x (y ∷ ys) s = elim (Bool-cases (le x y)) [
    | inl h ↦ rw h (
      (h, All-map (λ z. le y z ≡ true) (λ z. le x z ≡ true) (λ z k. o.trans x y z h k) ys s.0),
      s,
    )
    | inr h ↦ rw h (
      All-insert_by le (λ z. le y z ≡ true) x ys (elim (o.total x y) [ inl k ↦ cc | inr k ↦ k ])
          s.0,
      insert_by-Sorted x ys s.1,
    )
  ]

  pub order_by-Sorted : (xs : List A) → Sorted le (order_by le xs)
  unfolding order_by
  order_by-Sorted [] = tt
  order_by-Sorted (x ∷ xs) = insert_by-Sorted x (order_by le xs) (order_by-Sorted xs)

  first_row-least :
      (xs : List A) (x : A) → Sorted le xs → first_row le xs ≡ some x → All (λ y. le x y ≡ true) xs
  first_row-least [] x s e = tt
  first_row-least (y ∷ ys) x s e =
      subst (λ z. All (λ w. le z w ≡ true) (y ∷ ys)) (some-injective y x e)
        (elim (o.total y y) [ inl k ↦ k | inr k ↦ k ], s.0)

  -- `ORDER BY … LIMIT 1` returns a row that comes before every row.
  pub first_row-order_by :
      (xs : List A) (x : A) → first_row le (order_by le xs) ≡ some x → All (λ y. le x y ≡ true) xs
  first_row-order_by xs x e =
      All-order_by_inv le (λ y. le x y ≡ true) xs
        (first_row-least (order_by le xs) x (order_by-Sorted xs) e)

pub first_row-take {ℓ} :
    {A : Type ℓ} (le : A → A → Bool) (n : ℕ) (xs : List A)
    → first_row le (take (suc n) xs) ≡ first_row le xs
first_row-take le n [] = refl
first_row-take le n (x ∷ xs) = refl

pub All-first_row {ℓ κ} :
    {A : Type ℓ} (le : A → A → Bool) (P : A → Type κ) (xs : List A) (x : A)
    → All P xs
    → first_row le xs ≡ some x
    → P x
All-first_row le P [] x h e = cc
All-first_row le P (y ∷ ys) x h e = subst P (some-injective y x e) h.0

-- `LIMIT` returns nothing only if no row passed the test.
pub first_row-none {ℓ} :
    {A : Type ℓ} (le : A → A → Bool) (xs : List A) → first_row le (order_by le xs) ≡ none → xs ≡ []
unfolding order_by insert_by
first_row-none le [] e = refl
first_row-none {A} le (x ∷ xs) e = absurd (go (order_by le xs) e)
  where
    go : (ys : List A) → first_row le (insert_by le x ys) ≡ none → ⊥
    go [] h = cc
    go (y ∷ ys) h = ground (arith, h)

-- Sorting and filtering may change places.
module _ {ℓ} {A : Type ℓ} (le : A → A → Bool) (o : TotalOrder le) (p : A → Bool) where
  insert_by-least : (x : A) (ys : List A) → All (λ y. le x y ≡ true) ys → insert_by le x ys ≡ x ∷ ys
  unfolding insert_by
  insert_by-least x [] h = refl
  insert_by-least x (y ∷ ys) (h, hs) = rw h refl

  keep-insert_by :
      (x : A) (ys : List A)
      → Sorted le ys
      → keep p (insert_by le x ys) ≡ (if p x then insert_by le x (keep p ys) else keep p ys)
  unfolding insert_by
  keep-insert_by x [] s = refl
  keep-insert_by x (y ∷ ys) s = elim (Bool-cases (le x y)) [
    | inl h ↦
        let later =
          All-keep (λ z. le x z ≡ true) p (y ∷ ys)
            (
              h,
              All-map (λ z. le y z ≡ true) (λ z. le x z ≡ true) (λ z k. o.trans x y z h k) ys s.0,
            ) in
        ground (arith, h, insert_by-least x (keep p (y ∷ ys)) later)
    | inr h ↦ ground (arith, h, keep-insert_by x ys s.1)
  ]

  pub keep-order_by : (xs : List A) → keep p (order_by le xs) ≡ order_by le (keep p xs)
  unfolding order_by
  keep-order_by [] = refl
  keep-order_by (x ∷ xs) =
      ground (arith, keep-insert_by x (order_by le xs) (order_by-Sorted le o xs), keep-order_by xs)
