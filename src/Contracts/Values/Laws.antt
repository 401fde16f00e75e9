-- ===== src/Contracts/Values/Laws.antt =====
-- What is read from a dictionary after a member of it has been set.
use argus_web_intelligence.Prelude.{
  String, false, List, [], ◌∷◌, map, some, String_eq, ◌==◌, ◌≡◌, refl, ap, eq_iff, arith,
}
use argus_web_intelligence.Contracts.Values.{
  Json, Members, end, member, get_in, set_in, members, get_member, set_member, items, elements,
  texts, texts_in, as_texts, text,
}

get_in-set_in : (key : String) (v : Json) (ms : Members) → get_in key (set_in key v ms) ≡ some v
unfolding get_in set_in
get_in-set_in key v end = ground (arith, eq_iff key key)
get_in-set_in key v (member k w rest) = ground (arith, get_in-set_in key v rest, eq_iff k key)

get_in-set_in_ne :
    (key other : String) (v : Json) (ms : Members)
    → (other == key) ≡ false
    → get_in key (set_in other v ms) ≡ get_in key ms
unfolding get_in set_in
get_in-set_in_ne key other v end d = ground (arith, d)
get_in-set_in_ne key other v (member k w rest) d =
    ground (arith, d, get_in-set_in_ne key other v rest d, eq_iff k key, eq_iff k other)

pub get_member-set_member :
    (key : String) (v d : Json) → get_member key (set_member key v d) ≡ some v
unfolding get_member set_member members
get_member-set_member key v d = get_in-set_in key v (members d)

pub get_member-set_member_ne :
    (key other : String) (v d : Json)
    → (other == key) ≡ false
    → get_member key (set_member other v d) ≡ get_member key d
unfolding get_member set_member members
get_member-set_member_ne key other v d e = get_in-set_in_ne key other v (members d) e

pub elements-items : (vs : List Json) → elements (items vs) ≡ vs
unfolding elements items
elements-items [] = refl
elements-items (v ∷ vs) = ap (λ r. v ∷ r) (elements-items vs)

texts_in-items : (ts : List String) → texts_in (items (map text ts)) ≡ ts
unfolding texts_in items
texts_in-items [] = refl
texts_in-items (t ∷ ts) = ap (λ r. t ∷ r) (texts_in-items ts)

pub as_texts-texts : (ts : List String) → as_texts (some (texts ts)) ≡ ts
unfolding as_texts texts
as_texts-texts ts = texts_in-items ts
