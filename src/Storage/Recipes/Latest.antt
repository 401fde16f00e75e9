-- ===== src/Storage/Recipes/Latest.antt =====
-- What a worker finds of a site's recipe after it has saved a version.
use argus_web_intelligence.Prelude.{
  ℕ, ◌≤◌, String, true, false, ◌&&◌, List, [], ◌∷◌, Option, none, some, String_eq, Nat_eq, ◌==◌,
  ◌≡◌, refl, arith, eq_iff, eq_refl, Bool-cases, Option-cases, inl, inr, All, keep, nat_eq_iff,
  keep_nil, All-map, All-keep, All-keep_test, All-keep_inv, ap, sym, ◌∙◌,
}
use argus_web_intelligence.Prelude.Action.{ok}
use argus_web_intelligence.Prelude.Order.{
  order_by, first_row-take, first_row-none, first_row-order_by, All-first_row, All-order_by,
}
use argus_web_intelligence.Sql.{select_limit}
use argus_web_intelligence.Contracts.{SiteRecipe}
use argus_web_intelligence.Storage.{Database, RecipeRow}
use argus_web_intelligence.Storage.Fencing.{LeaseFence, has_lease}
use argus_web_intelligence.Storage.Recipes.{
  of_site, has_slot, newest, latest, get_recipe, save_recipe, insert_recipe, put_recipe, recipe_row,
}
use argus_web_intelligence.Storage.Recipes.Versions.{UniqueVersions, newest-TotalOrder}
use mathlib.Core.Option
use argus_web_intelligence.Storage.Recipes.Pruning.{get_recipe-latest}

-- What the rows satisfy after a recipe has been put among them.
put_recipe-All :
    (r : SiteRecipe) (P : RecipeRow → Type 0) (rows : List RecipeRow)
    → P (recipe_row r)
    → ((row : RecipeRow)
        → has_slot r row ≡ true
        → P row
        → P (record row { recipe_id = r.recipe_id; body = r }))
    → All P rows
    → All P (put_recipe r rows)
unfolding put_recipe
put_recipe-All r P [] new set h = (new, tt)
put_recipe-All r P (row ∷ rows) new set h = elim (Bool-cases (has_slot r row)) [
  | inl same ↦ rw (same, All) (set row same h.0, h.1)
  | inr other ↦ rw (other, All) (h.0, put_recipe-All r P rows new set h.1)
]

-- The row that was put is there.
put_recipe-member :
    (r : SiteRecipe) (P : RecipeRow → Type 0) (rows : List RecipeRow)
    → All P (put_recipe r rows)
    → (y : RecipeRow) × P y × (has_slot r y ≡ true)
unfolding put_recipe has_slot of_site recipe_row
put_recipe-member r P [] h = (
  recipe_row r,
  h.0,
  ground (arith, eq_refl r.domain, eq_refl r.goal, nat_eq_iff r.version r.version),
)
put_recipe-member r P (row ∷ rows) h = elim (Bool-cases (has_slot r row)) [
  | inl same ↦
      let h' = (rw (same, All) at h) in
      (record row { recipe_id = r.recipe_id; body = r }, h'.0, same)
  | inr other ↦ let h' = (rw (other, All) at h) in put_recipe-member r P rows h'.1
]

module _ (domain goal : String) (rows : List RecipeRow) where
  -- The newest version of a site is one of its rows, and no other row of the site is newer.
  pub latest-some :
      (x : RecipeRow)
      → latest domain goal rows ≡ some x
      → (of_site domain goal x ≡ true)
        × All (λ (y : RecipeRow). of_site domain goal y ≡ true → newest x y ≡ true) rows
        × ((P : RecipeRow → Type 0) → All P rows → P x)
  unfolding latest select_limit
  latest-some x e =
      let test = of_site domain goal in
      let kept = keep test rows in
      let first = sym (first_row-take newest 0 (order_by newest kept)) ∙ e in
      let holds : (P : RecipeRow → Type 0) → All P kept → P x = λ P h.
        All-first_row newest P (order_by newest kept) x (All-order_by newest P kept h) first in
      (
        holds (λ y. test y ≡ true) (All-keep_test test rows),
        All-keep_inv (λ y. newest x y ≡ true) test rows
            (first_row-order_by newest newest-TotalOrder kept x first),
        λ P h. holds P (All-keep P test rows h),
      )

  pub latest-none :
      latest domain goal rows ≡ none → All (λ (y : RecipeRow). of_site domain goal y ≡ false) rows
  unfolding latest select_limit
  latest-none e =
      let kept = keep (of_site domain goal) rows in
      keep_nil (of_site domain goal) rows
        (first_row-none newest kept (sym (first_row-take newest 0 (order_by newest kept)) ∙ e))

module _ (r : SiteRecipe) where
  -- Only the row of the recipe's version holds that version.
  abbrev IsBody : RecipeRow → Type 0
  IsBody row = has_slot r row ≡ true → row.body ≡ r

  slot_apart :
      (row s : RecipeRow)
      → has_slot r row ≡ true
      → of_site row.domain row.goal s && s.version == row.version ≡ false
      → has_slot r s ≡ true
      → ⊥
  unfolding has_slot of_site
  slot_apart row s same differs e = ground (
    arith,
    eq_iff row.domain r.domain,
    eq_iff row.goal r.goal,
    eq_iff s.domain r.domain,
    eq_iff s.goal r.goal,
    eq_refl r.domain,
    eq_refl r.goal,
  )

  put_recipe-IsBody : (rows : List RecipeRow) → UniqueVersions rows → All IsBody (put_recipe r rows)
  unfolding put_recipe recipe_row
  put_recipe-IsBody [] u = (λ _. refl, tt)
  put_recipe-IsBody (row ∷ rows) u = elim (Bool-cases (has_slot r row)) [
    | inl same ↦
        rw (same, All)
          (
            λ _. refl,
            All-map _ IsBody (λ s differs e. absurd (slot_apart row s same differs e)) rows u.0,
          )
    | inr other ↦
        rw (other, All) (λ e. absurd (ground (arith, e, other)), put_recipe-IsBody rows u.1)
  ]

  -- The newest version that is stored for the site.
  abbrev pub IsNewest : List RecipeRow → Type 0
  IsNewest rows =
      All (λ (row : RecipeRow). of_site r.domain r.goal row ≡ true → row.version ≤ r.version) rows

  slot_in_site : (y : RecipeRow) → has_slot r y ≡ true → of_site r.domain r.goal y ≡ false → ⊥
  unfolding has_slot
  slot_in_site y e off = ground (arith, e, off)

  put_below : of_site r.domain r.goal (recipe_row r) ≡ true → (recipe_row r).version ≤ r.version
  unfolding recipe_row
  put_below e = omega arith

  set_below : (row : RecipeRow) → has_slot r row ≡ true → row.version ≤ r.version
  unfolding has_slot
  set_below row e = ground arith

  slot_intro :
      (x y : RecipeRow)
      → of_site r.domain r.goal x ≡ true
      → x.version ≤ r.version
      → has_slot r y ≡ true
      → (of_site r.domain r.goal y ≡ true → newest x y ≡ true)
      → has_slot r x ≡ true
  unfolding has_slot newest
  slot_intro x y site below slot before = ground arith

  latest-put_recipe :
      (rows : List RecipeRow)
      → UniqueVersions rows
      → IsNewest rows
      → Option.map (λ (row : RecipeRow). row.body) (latest r.domain r.goal (put_recipe r rows))
        ≡ some r
  latest-put_recipe rows u h = elim (Option-cases (latest r.domain r.goal (put_recipe r rows))) [
    | inl e ↦
        let (y, off, slot) =
          put_recipe-member r (λ y. of_site r.domain r.goal y ≡ false) rows
            (latest-none r.domain r.goal (put_recipe r rows) e) in
        absurd (slot_in_site y slot off)
    | inr (x, e) ↦
        let (site, least, holds) = latest-some r.domain r.goal (put_recipe r rows) x e in
        let (y, before, slot) = put_recipe-member r _ rows least in
        let below =
          holds (λ z. of_site r.domain r.goal z ≡ true → z.version ≤ r.version)
            (put_recipe-All r _ rows put_below (λ row same k on. set_below row same) h) in
        rw e (
          ap some (
            holds IsBody (put_recipe-IsBody rows u) (slot_intro x y site (below site) slot before)))
  ]

save_recipe-rows :
    (fence : Option LeaseFence) (now : ℕ) (r : SiteRecipe) (db : Database)
    → (save_recipe fence none now r db).0 ≡ ok tt
    → (save_recipe fence none now r db).1 ≡ record db { recipes = put_recipe r db.recipes }
unfolding save_recipe insert_recipe
save_recipe-rows none now r db e = ground arith
save_recipe-rows (some fence) now r db e =
    elim (Bool-cases (has_lease fence fence.collection_id now db)) [
      | inl held ↦ ground (arith, held)
      | inr lost ↦ absurd (ground (arith, e, lost))
    ]

-- When a recipe has been saved that is no older than the versions stored for its site, it is the
-- recipe that is found there.
pub save_recipe-get_recipe :
    (fence fence' : Option LeaseFence) (now : ℕ) (r : SiteRecipe) (db : Database)
    → UniqueVersions db.recipes
    → IsNewest r db.recipes
    → (save_recipe fence none now r db).0 ≡ ok tt
    → (get_recipe fence' none r.domain r.goal (save_recipe fence none now r db).1).0 ≡ ok (some r)
save_recipe-get_recipe fence fence' now r db u h e =
    let saved = record db { recipes = put_recipe r db.recipes } in
    rw (save_recipe-rows fence now r db e)
      (get_recipe-latest fence' r.domain r.goal saved ∙ ap ok (latest-put_recipe r db.recipes u h))
