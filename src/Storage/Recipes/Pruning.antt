-- ===== src/Storage/Recipes/Pruning.antt =====
-- What a worker finds of a site's recipe after versions have been pruned.
use argus_web_intelligence.Prelude.{
  ℕ, zero, suc, take, ◌≤◌, max, String, List, Option, none, some, String_eq, Nat_eq, ◌≡◌, ◌≢◌, ◌⊎◌,
  refl, arith, Bool-cases, inl, inr, ap, sym, ◌∙◌,
}
use argus_web_intelligence.Prelude.Action.{ok}
use argus_web_intelligence.Prelude.Order.{order_by, first_row}
use argus_web_intelligence.Sql.{count_where, select_limit}
use argus_web_intelligence.Storage.{Database, RecipeRow}
use argus_web_intelligence.Storage.Fencing.{LeaseFence, has_lease}
use argus_web_intelligence.Storage.Recipes.{
  of_site, newest, latest, get_recipe, prune_recipe_versions, prune_rows, kept_versions,
}
use argus_web_intelligence.Storage.Recipes.Versions.{
  UniqueVersions, count-prune_rows, latest-prune_rows, pruned-other,
}
use mathlib.Core.Option

-- The rows after a call that succeeded.
prune_recipe_versions-rows :
    (fence : Option LeaseFence) (now : ℕ) (domain goal : String) (n deleted : ℕ) (db : Database)
    → (prune_recipe_versions fence none now domain goal n db).0 ≡ ok deleted
    → (prune_recipe_versions fence none now domain goal n db).1
      ≡ record db { recipes = prune_rows domain goal (max 1 n) db.recipes }
unfolding prune_recipe_versions
prune_recipe_versions-rows none now domain goal n deleted db e = refl
prune_recipe_versions-rows (some fence) now domain goal n deleted db e =
    elim (Bool-cases (has_lease fence fence.collection_id now db)) [
      | inl held ↦ ground (arith, held)
      | inr lost ↦ absurd (ground (arith, e, lost))
    ]

pub get_recipe-latest :
    (fence : Option LeaseFence) (domain goal : String) (db : Database)
    → (get_recipe fence none domain goal db).0
      ≡ ok (Option.map (λ (row : RecipeRow). row.body) (latest domain goal db.recipes))
unfolding get_recipe
get_recipe-latest none domain goal db = refl
get_recipe-latest (some fence) domain goal db = refl

latest-prune_max :
    (domain goal : String) (n : ℕ) (rows : List RecipeRow)
    → latest domain goal (prune_rows domain goal (max 1 n) rows) ≡ latest domain goal rows
latest-prune_max domain goal zero rows = latest-prune_rows domain goal 0 rows
latest-prune_max domain goal (suc n) rows =
    let one : max 1 (suc n) ≡ suc n = omega arith in rw one (latest-prune_rows domain goal n rows)

latest-prune_other :
    (domain goal domain' goal' : String) (n : ℕ) (rows : List RecipeRow)
    → (domain' ≢ domain) ⊎ (goal' ≢ goal)
    → latest domain' goal' (prune_rows domain goal n rows) ≡ latest domain' goal' rows
unfolding latest prune_rows select_limit
latest-prune_other domain goal domain' goal' n rows ne =
    ap (λ t. first_row newest (take 1 (order_by newest t)))
      (pruned-other domain goal (kept_versions domain goal n rows) domain' goal' rows ne)

get_recipe-same :
    (fence : Option LeaseFence) (domain goal : String) (db db' : Database)
    → latest domain goal db.recipes ≡ latest domain goal db'.recipes
    → (get_recipe fence none domain goal db).0 ≡ (get_recipe fence none domain goal db').0
get_recipe-same fence domain goal db db' e =
    get_recipe-latest fence domain goal db
    ∙ ap (λ o. ok (Option.map (λ (row : RecipeRow). row.body) o)) e
    ∙ sym (get_recipe-latest fence domain goal db')

-- After a pruning that succeeds, the site has no more versions than were to be kept (one at least),
-- the recipe that is found for it is the one that was found before, and so is that of every other
-- site.
pub prune_recipe_versions_cases :
    (fence : Option LeaseFence) (now : ℕ) (domain goal : String) (n deleted : ℕ) (db : Database)
    → UniqueVersions db.recipes
    → (prune_recipe_versions fence none now domain goal n db).0 ≡ ok deleted
    → (count_where
          (of_site domain goal)
          (prune_recipe_versions fence none now domain goal n db).1.recipes
        ≤ max 1 n)
      × ((get_recipe fence none domain goal
            (prune_recipe_versions fence none now domain goal n db).1).0
          ≡ (get_recipe fence none domain goal db).0)
      × ((domain' goal' : String)
          → (domain' ≢ domain) ⊎ (goal' ≢ goal)
          → (get_recipe fence none domain' goal'
              (prune_recipe_versions fence none now domain goal n db).1).0
            ≡ (get_recipe fence none domain' goal' db).0)
prune_recipe_versions_cases fence now domain goal n deleted db u e =
    let pruned = record db { recipes = prune_rows domain goal (max 1 n) db.recipes } in
    rw (prune_recipe_versions-rows fence now domain goal n deleted db e) (
      count-prune_rows domain goal (max 1 n) db.recipes u,
      get_recipe-same fence domain goal pruned db (latest-prune_max domain goal n db.recipes),
      λ domain' goal' ne.
          get_recipe-same fence domain' goal' pruned db
            (latest-prune_other domain goal domain' goal' (max 1 n) db.recipes ne),
    )

-- The first half of that, without the condition on the versions.
pub prune_recipe_versions-same :
    (fence fence' : Option LeaseFence) (now : ℕ) (domain goal : String) (n deleted : ℕ)
    (db : Database)
    → (prune_recipe_versions fence none now domain goal n db).0 ≡ ok deleted
    → (get_recipe fence' none domain goal
        (prune_recipe_versions fence none now domain goal n db).1).0
      ≡ (get_recipe fence' none domain goal db).0
prune_recipe_versions-same fence fence' now domain goal n deleted db e =
    let pruned = record db { recipes = prune_rows domain goal (max 1 n) db.recipes } in
    rw (prune_recipe_versions-rows fence now domain goal n deleted db e)
      (get_recipe-same fence' domain goal pruned db (latest-prune_max domain goal n db.recipes))
