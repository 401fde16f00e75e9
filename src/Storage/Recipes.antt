-- ===== src/Storage/Recipes.antt =====
-- storage/postgres.py, fenced_postgres.py and content_postgres.py: the versions of a site's recipe.
-- The fence is that of any collection; `outage` is the exception that the driver raises in the
-- call, if it raises one.
pub mod Versions
pub mod Pruning
pub mod Latest
use argus_web_intelligence.Prelude.{
  ℕ, max, String, Bool, true, false, ◌&&◌, ◌||◌, not, List, [], ◌∷◌, Option, none, some, String_eq,
  Nat_eq, ◌==◌, if◌then◌else◌, any, leb, map,
}
use argus_web_intelligence.Prelude.Order.{first_row}
use argus_web_intelligence.Prelude.Action.{Result, ok, err, pure, ◌>>=◌, ◌>>◌, through, transaction}
use argus_web_intelligence.Sql.{count_where, delete_where, select_limit}
use argus_web_intelligence.Contracts.{SiteRecipe}
use argus_web_intelligence.Storage.{
  Database, RecipeRow, Storage, StorageError, unique_violation, lease_lost,
}
use argus_web_intelligence.Storage.Fencing.{LeaseFence, has_lease, translate}
use mathlib.Core.Option

unfoldable pub recipe_row : SiteRecipe → RecipeRow
recipe_row r = record {
  recipe_id = r.recipe_id;
  domain = r.domain;
  goal = r.goal;
  version = r.version;
  body = r;
}

-- `domain=%s AND goal=%s`
unfoldable pub of_site : String → String → RecipeRow → Bool
of_site domain goal row = row.domain == domain && row.goal == goal

-- UNIQUE(domain, goal, version)
unfoldable pub has_slot : SiteRecipe → RecipeRow → Bool
unfolding of_site
has_slot r row = of_site r.domain r.goal row && row.version == r.version

-- ON CONFLICT (domain, goal, version) DO UPDATE SET recipe_id=…, body=…
unfoldable pub put_recipe : SiteRecipe → List RecipeRow → List RecipeRow
unfolding recipe_row has_slot
put_recipe r [] = recipe_row r ∷ []
put_recipe r (row ∷ rows) =
    let rest = put_recipe r rows in
    if has_slot r row then record row { recipe_id = r.recipe_id; body = r } ∷ rows else row ∷ rest

-- The primary key is the identifier: no row of another slot may have it.
unfoldable pub insert_recipe : SiteRecipe → Storage (Unit {0})
unfolding put_recipe has_slot
insert_recipe r db =
    if any (λ (row : RecipeRow). row.recipe_id == r.recipe_id && not (has_slot r row)) db.recipes
    then (err unique_violation, db)
    else (ok tt, record db { recipes = put_recipe r db.recipes })

-- SELECT worker_id … FOR UPDATE, and the exception when there is no row
unfoldable pub require_lease : Option LeaseFence → ℕ → Storage (Unit {0})
require_lease none now db = (ok tt, db)
require_lease (some fence) now db =
    if has_lease fence fence.collection_id now db then (ok tt, db) else (err lease_lost, db)

-- What a worker sees of an exception.
unfoldable pub seen :
    {A : Type 0}
    → Option LeaseFence
    → Result StorageError A × Database
    → Result StorageError A × Database
seen none x = x
seen (some fence) x = translate x

-- FencedPostgresRepository.save_recipe
unfoldable pub save_recipe :
    Option LeaseFence → Option StorageError → ℕ → SiteRecipe → Storage (Unit {0})
unfolding insert_recipe require_lease seen
save_recipe fence outage now r db =
    seen fence (through outage (transaction (require_lease fence now >> insert_recipe r)) db)

-- ORDER BY version DESC
unfoldable pub newest : RecipeRow → RecipeRow → Bool
newest a b = leb b.version a.version

unfoldable pub latest : String → String → List RecipeRow → Option RecipeRow
unfolding newest select_limit of_site
latest domain goal rows = first_row newest (select_limit (of_site domain goal) newest 1 rows)

-- FencedPostgresRepository.get_recipe
unfoldable pub get_recipe :
    Option LeaseFence → Option StorageError → String → String → Storage (Option SiteRecipe)
unfolding latest seen
get_recipe fence outage domain goal db = seen fence (
    through outage
      (λ s. (ok (Option.map (λ (row : RecipeRow). row.body) (latest domain goal s.recipes)), s)) db)

-- SELECT version … ORDER BY version DESC LIMIT keep
unfoldable pub kept_versions : String → String → ℕ → List RecipeRow → List ℕ
unfolding newest select_limit of_site
kept_versions domain goal keep rows =
    map (λ (row : RecipeRow). row.version) (select_limit (of_site domain goal) newest keep rows)

unfoldable pub is_pruned : String → String → List ℕ → RecipeRow → Bool
unfolding of_site
is_pruned domain goal kept row = of_site domain goal row && not (any (λ v. v == row.version) kept)

unfoldable pub prune_rows : String → String → ℕ → List RecipeRow → List RecipeRow
unfolding kept_versions is_pruned
prune_rows domain goal keep rows =
    delete_where (is_pruned domain goal (kept_versions domain goal keep rows)) rows

-- ContentAwareFencedPostgresRepository.prune_recipe_versions
unfoldable pub prune_recipe_versions :
    Option LeaseFence → Option StorageError → ℕ → String → String → ℕ → Storage ℕ
unfolding prune_rows require_lease seen
prune_recipe_versions fence outage now domain goal keep_versions db =
    let keep = max 1 keep_versions in
    seen fence (
      through outage
        (transaction (
          require_lease fence now >> (λ s. (
            ok (
                count_where (is_pruned domain goal (kept_versions domain goal keep s.recipes))
                  s.recipes),
            record s { recipes = prune_rows domain goal keep s.recipes },
          ))))
        db)
