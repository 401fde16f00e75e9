-- ===== src/Prelude/Sets.antt =====
-- Sets of texts, as lists: what matters is which texts are in them.
use Prim.Native.String.{String}
use mathlib.Core.Path.{◌≡◌, refl, sym, ◌∙◌}
use mathlib.Core.Logic.{◌↔◌, inl, inr}
use mathlib.Core.Bool.{Bool, true, false, ◌||◌, false≢true}
use mathlib.Core.List.{List, [], ◌∷◌}
use native.Mathlib.Omega.{arith}
use text.Mathlib.TextEquality.{eq_iff}
use argus_web_intelligence.Prelude.Tests.{◌==◌, String_eq, if◌then◌else◌, Bool-cases}
use argus_web_intelligence.Prelude.Lists.{All}
use argus_web_intelligence.Prelude.Order.{order_by, All-order_by, All-order_by_inv}

-- `k in xs`
abbrev pub elem : String → List String → Bool
elem k [] = false
elem k (x ∷ xs) = (x == k) || elem k xs

-- `xs.add(k)`
abbrev pub add : String → List String → List String
add k xs = if elem k xs then xs else k ∷ xs

-- `xs.update(ks)`
abbrev pub add_all : List String → List String → List String
add_all [] xs = xs
add_all (k ∷ ks) xs = add_all ks (add k xs)

-- `set(ks)`
abbrev pub set_of : List String → List String
set_of ks = add_all ks []

-- No text is twice in the list.
abbrev pub Distinct : List String → Type 0
Distinct [] = Unit {0}
Distinct (x ∷ xs) = (elem x xs ≡ false) × Distinct xs

pub elem-add : (k x : String) (xs : List String) → elem k (add x xs) ≡ ((x == k) || elem k xs)
elem-add k x xs = elim (Bool-cases (elem x xs)) [
  | inl h ↦ elim (Bool-cases (x == k)) [
    | inl e ↦
        let same : x ≡ k = (eq_iff x k).0 e in let k_in : elem k xs ≡ true = cc in rw (h, e) k_in
    | inr e ↦ rw (h, e) refl
  ]
  | inr h ↦ rw h refl
]

pub Distinct-add : (x : String) (xs : List String) → Distinct xs → Distinct (add x xs)
Distinct-add x xs d = elim (Bool-cases (elem x xs)) [ inl h ↦ rw h d | inr h ↦ rw h (h, d) ]

pub Distinct-add_all : (ks xs : List String) → Distinct xs → Distinct (add_all ks xs)
Distinct-add_all [] xs d = d
Distinct-add_all (k ∷ ks) xs d = Distinct-add_all ks (add k xs) (Distinct-add k xs d)

-- Which texts a list has none of, as `All` tells it.
elem-false : (k : String) (xs : List String) → (elem k xs ≡ false) ↔ All (λ x. (x == k) ≡ false) xs
elem-false k [] = ((λ _. tt), (λ _. refl))
elem-false k (x ∷ xs) =
    let (there, back) = elem-false k xs in
    ((λ h. (ground (arith, h), there (ground (arith, h)))), (λ h. ground (arith, h.0, back h.1)))

pub elem-order_by :
    (le : String → String → Bool) (k : String) (xs : List String)
    → elem k (order_by le xs) ≡ elem k xs
elem-order_by le k xs = elim (Bool-cases (elem k xs)) [
  | inl h ↦ elim (Bool-cases (elem k (order_by le xs))) [
    | inl e ↦ cc
    | inr e ↦
        let out =
          (elem-false k xs).1 (
            All-order_by_inv le (λ x. (x == k) ≡ false) xs ((elem-false k (order_by le xs)).0 e)) in
        absurd (false≢true (sym out ∙ h))
  ]
  | inr h ↦
      let out =
        (elem-false k (order_by le xs)).1
          (All-order_by le (λ x. (x == k) ≡ false) xs ((elem-false k xs).0 h)) in
      cc
]

pub elem-add_all :
    (k : String) (ks xs : List String) → elem k (add_all ks xs) ≡ (elem k ks || elem k xs)
elem-add_all k [] xs = refl
elem-add_all k (x ∷ ks) xs =
    let e = elem-add_all k ks (add x xs) in let h = elem-add k x xs in ground (arith, e, h)

pub elem-set_of : (k : String) (ks : List String) → elem k (set_of ks) ≡ elem k ks
elem-set_of k ks = let e = elem-add_all k ks [] in ground (arith, e)
