-- ===== src/Recipes/Examples.antt =====
-- A site with two versions of its recipe, on which the theorems about recipes are tried.
use argus_web_intelligence.Prelude.{
  ℕ, ◌+◌, ◌≤◌, ◌<◌, max, String, false, List, [], ◌∷◌, none, some, ◌≡◌, ◌≢◌, ◌⊎◌, refl, arith,
  length,
}
use argus_web_intelligence.Prelude.Action.{ok}
use argus_web_intelligence.Prelude.Order.{order_by}
use argus_web_intelligence.Sql.{count_where, select_limit}
use argus_web_intelligence.Contracts.{
  SiteRecipe, RecipeStep, RecipeStatus, active, invalidated, goto,
}
use argus_web_intelligence.Contracts.Values
use argus_web_intelligence.Storage.{Database, empty_database, RecipeRow}
use argus_web_intelligence.Storage.Recipes.{
  get_recipe, save_recipe, prune_recipe_versions, of_site, recipe_row, latest, newest,
  kept_versions, is_pruned, insert_recipe, put_recipe, has_slot,
}
use argus_web_intelligence.Storage.Recipes.Pruning.{prune_recipe_versions_cases}
use argus_web_intelligence.Storage.Recipes.Latest.{save_recipe-get_recipe}
use argus_web_intelligence.Recipes.{
  RecipeManager, Context, Held, mark_success, invalidate, get, new_candidate, is_expired, credited,
  promoted, found, found_as, draft, next_version, retired, succeed_as, store, cleanup,
}
use argus_web_intelligence.Recipes.Failures.{fail_all, fail_all_cases}
use argus_web_intelligence.Recipes.Retired.{retired_recipe-get}
use argus_web_intelligence.Recipes.Found.{steady, get-some, new_candidate-mark_success}

abbrev one_step : List RecipeStep
one_step = record { action = goto; selector = none; value = none; details = Values.Json.null } ∷ []

abbrev version : String → ℕ → RecipeStatus → SiteRecipe
version id n status = record {
  recipe_id = id;
  domain = "example.org";
  goal = "reviews";
  version = n;
  steps = one_step;
  created_at = 50;
  status = status;
  verified_at = some 50;
  last_success_at = some 60;
  last_failure_at = none;
  invalidated_at = none;
  invalidation_reason = none;
  failures = 0;
  successes = 1;
  total_failures = 0;
}

abbrev row : String → ℕ → RecipeStatus → RecipeRow
row id n status = record {
  recipe_id = id;
  domain = "example.org";
  goal = "reviews";
  version = n;
  body = version id n status;
}

abbrev two_versions : Database
two_versions = record empty_database { recipes = row "r-1" 1 invalidated ∷ row "r-2" 2 active ∷ [] }

abbrev manager : RecipeManager
manager = record { failure_threshold = 3; max_age_days = 30; keep_versions = 10 }

abbrev held : Held
held = record { recipe = version "r-2" 2 active; db = two_versions }

abbrev three_failures : List (Context × String)
three_failures =
    (steady 100 101 none, "a") ∷ (steady 102 103 none, "b") ∷ (steady 104 105 none, "c") ∷ []

fail_all_cases_example :
    (0 + length three_failures < 3
      → ((fail_all manager three_failures held).recipe.status ≡ active)
        × ((fail_all manager three_failures held).recipe.failures ≡ 0 + length three_failures))
    × (3 ≤ 0 + length three_failures
        → ((fail_all manager three_failures held).recipe.status ≡ invalidated)
          × ((fail_all manager three_failures held).recipe.failures ≡ 3))
fail_all_cases_example = fail_all_cases manager three_failures held refl (omega arith)

get-some_example :
    ((get_recipe none none "example.org" "reviews" two_versions).0
      ≡ ok (some (version "r-2" 2 active)))
    × (active ≡ active)
    × (is_expired manager 100 (version "r-2" 2 active) ≡ false)
    × ((get manager (steady 100 101 none) "example.org" "reviews" two_versions).1 ≡ two_versions)
unfolding get found found_as is_expired get_recipe latest newest select_limit order_by of_site
get-some_example =
    get-some manager (steady 100 101 none) "example.org" "reviews" (version "r-2" 2 active)
      two_versions refl

abbrev made : SiteRecipe
made =
    draft manager (steady 100 101 none) "r-3" "example.org" "reviews" one_step
      (some (version "r-2" 2 active))

abbrev made_held : Held
made_held = record { recipe = made; db = two_versions }

new_candidate-mark_success_example :
    (get_recipe none none "example.org" "reviews"
      (mark_success manager (steady 100 101 none) made_held).1.db).0
    ≡ ok (
        some (record made {
          status = active;
          verified_at = some 100;
          last_success_at = some 100;
          failures = 0;
          successes = 1;
          invalidation_reason = none;
          invalidated_at = none;
        }))
unfolding new_candidate draft next_version get_recipe latest newest select_limit order_by of_site
    mark_success succeed_as store cleanup credited promoted save_recipe insert_recipe put_recipe
    recipe_row has_slot prune_recipe_versions
new_candidate-mark_success_example =
    new_candidate-mark_success manager 100 101 none "r-3" "example.org" "reviews" one_step
      two_versions made ((refl, tt), (tt, tt)) (refl, (refl, tt)) refl refl

prune_recipe_versions_cases_example :
    (count_where
        (of_site "example.org" "reviews")
        (prune_recipe_versions none none 7 "example.org" "reviews" 1 two_versions).1.recipes
      ≤ max 1 1)
    × ((get_recipe none none "example.org" "reviews"
          (prune_recipe_versions none none 7 "example.org" "reviews" 1 two_versions).1).0
        ≡ (get_recipe none none "example.org" "reviews" two_versions).0)
    × ((domain' goal' : String)
        → (domain' ≢ "example.org") ⊎ (goal' ≢ "reviews")
        → (get_recipe none none domain' goal'
            (prune_recipe_versions none none 7 "example.org" "reviews" 1 two_versions).1).0
          ≡ (get_recipe none none domain' goal' two_versions).0)
unfolding prune_recipe_versions count_where is_pruned kept_versions select_limit newest order_by
    of_site
prune_recipe_versions_cases_example =
    prune_recipe_versions_cases none 7 "example.org" "reviews" 1 1 two_versions
      ((refl, tt), (tt, tt)) refl

save_recipe-get_recipe_example :
    (get_recipe none none "example.org" "reviews"
      (save_recipe none none 7 (version "r-3" 3 active) two_versions).1).0
    ≡ ok (some (version "r-3" 3 active))
unfolding save_recipe insert_recipe put_recipe has_slot of_site
save_recipe-get_recipe_example =
    save_recipe-get_recipe none none 7 (version "r-3" 3 active) two_versions ((refl, tt), (tt, tt))
      ((λ _. omega arith), ((λ _. omega arith), tt)) refl

-- r-2 is invalidated; the older r-1 is not taken in its place.
retired_recipe-get_example :
    get manager
      (steady 200 200 none)
      "example.org"
      "reviews"
      (invalidate manager (steady 100 101 none) "layout has changed" held).1.db
    ≡ (ok none, (invalidate manager (steady 100 101 none) "layout has changed" held).1.db)
unfolding of_site invalidate store save_recipe retired prune_recipe_versions
retired_recipe-get_example =
    (retired_recipe-get manager 100 101 none "layout has changed" held 200 ((refl, tt), (tt, tt))
        ((λ _. omega arith), ((λ _. omega arith), tt)) refl).0
      refl
