-- ===== src/Contracts/Values.antt =====
-- The values that `dict[str, Any]` fields hold: JSON. An integer that is not negative is `natural`,
-- any other number is kept as its literal.
pub mod Laws
use argus_web_intelligence.Prelude.{
  ℕ, String, Bool, List, [], ◌∷◌, map, Option, none, some, String_eq, ◌==◌, if◌then◌else◌, ◌≡◌,
  refl,
}

mutual
  pub data Json : Type 0 where
    null : Json
    bool : Bool → Json
    natural : ℕ → Json
    number : String → Json
    text : String → Json
    array : Items → Json
    object : Members → Json

  pub data Items : Type 0 where
    nil : Items
    cons : Json → Items → Items

  pub data Members : Type 0 where
    end : Members
    member : String → Json → Members → Members

-- `items.get(key)`
unfoldable pub get_in : String → Members → Option Json
get_in key end = none
get_in key (member k v rest) = if k == key then some v else get_in key rest

-- `{**items, key: value}`
unfoldable pub set_in : String → Json → Members → Members
set_in key v end = member key v end
set_in key v (member k w rest) =
    if k == key then member k v rest else member k w (set_in key v rest)

-- A value that is not a dictionary has no members.
unfoldable pub members : Json → Members
members (object ms) = ms
members _ = end

unfoldable pub get_member : String → Json → Option Json
unfolding get_in members
get_member key v = get_in key (members v)

unfoldable pub set_member : String → Json → Json → Json
unfolding set_in members
set_member key v d = object (set_in key v (members d))

unfoldable pub items : List Json → Items
items [] = nil
items (v ∷ vs) = cons v (items vs)

unfoldable pub elements : Items → List Json
elements nil = []
elements (cons v vs) = v ∷ elements vs

unfoldable pub texts : List String → Json
unfolding items
texts ts = array (items (map text ts))

-- The texts among the elements of a list.
unfoldable pub texts_in : Items → List String
texts_in nil = []
texts_in (cons v vs) = elim v [ text s ↦ s ∷ texts_in vs | _ ↦ texts_in vs ]

-- The texts of a list; of any other value, none.
unfoldable pub as_texts : Option Json → List String
unfolding texts_in
as_texts (some (array vs)) = texts_in vs
as_texts _ = []
