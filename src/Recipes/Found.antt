-- ===== src/Recipes/Found.antt =====
-- recipes/service.py: which recipe is found for a site.
use argus_web_intelligence.Prelude.{
  ℕ, ◌+◌, ◌≤◌, String, true, false, List, Option, none, some, ◌≡◌, refl, arith, Bool-cases,
  Option-cases, false≢true, inl, inr, All, All-map, ◌∙◌, ap, sym, subst,
}
use argus_web_intelligence.Prelude.Action.{Result, ok, err, pure, continue, Result-cases}
use argus_web_intelligence.Contracts.{
  SiteRecipe, RecipeStep, RecipeStatus, candidate, active, invalidated,
}
use argus_web_intelligence.Storage.{Database, RecipeRow, StorageError}
use argus_web_intelligence.Storage.Fencing.{LeaseFence}
use argus_web_intelligence.Storage.Recipes.{
  get_recipe, save_recipe, latest, newest, prune_recipe_versions,
}
use argus_web_intelligence.Storage.Recipes.Versions.{UniqueVersions}
use argus_web_intelligence.Storage.Recipes.Pruning.{prune_recipe_versions-same, get_recipe-latest}
use argus_web_intelligence.Storage.Recipes.Latest.{
  IsNewest, save_recipe-get_recipe, latest-none, latest-some,
}
use mathlib.Core.Option
use argus_web_intelligence.Recipes.{
  succeed_as, draft, next_version, cleanup, RecipeManager, Context, Held, mark_success, get,
  new_candidate, is_expired, credited, promoted, found, found_as, store,
}

continue-none :
    {A : Type 0} (r : Result StorageError A) (db : Database) (x : SiteRecipe)
    → (continue r (λ _. pure none) db).0 ≡ ok (some x)
    → ⊥
continue-none (ok a) db x e = ground (arith, e)
continue-none (err f) db x e = ground (arith, e)

pub get_recipe-same_database :
    (fence : Option LeaseFence) (outage : Option StorageError) (domain goal : String)
    (db : Database)
    → (get_recipe fence outage domain goal db).1 ≡ db
unfolding get_recipe
get_recipe-same_database none none domain goal db = refl
get_recipe-same_database none (some e) domain goal db = refl
get_recipe-same_database (some fence) none domain goal db = refl
get_recipe-same_database (some fence) (some e) domain goal db = refl

module _ (manager : RecipeManager) (ctx : Context) where
  found_as-some :
      (s : RecipeStatus) (r r' : SiteRecipe) (db : Database)
      → (found_as manager ctx s r db).0 ≡ ok (some r')
      → (s ≡ active)
        × (r ≡ r')
        × (is_expired manager ctx.now r ≡ false)
        × ((found_as manager ctx s r db).1 ≡ db)
  unfolding found_as
  found_as-some candidate r r' db e = absurd (ground (arith, e))
  found_as-some invalidated r r' db e = absurd (ground (arith, e))
  found_as-some active r r' db e = elim (Bool-cases (is_expired manager ctx.now r)) [
    | inl old ↦ absurd (continue-none _ _ r' (rw old at e))
    | inr fresh ↦ ground (arith, fresh)
  ]

  found-some :
      (o : Option SiteRecipe) (r : SiteRecipe) (db : Database)
      → (found manager ctx o db).0 ≡ ok (some r)
      → (o ≡ some r)
        × (r.status ≡ active)
        × (is_expired manager ctx.now r ≡ false)
        × ((found manager ctx o db).1 ≡ db)
  unfolding found
  found-some none r db e = absurd (ground (arith, e))
  found-some (some q) r db e =
      let (is_active, same, fresh, kept) = found_as-some q.status q r db e in
      (
        ap some same,
        ap (λ x. x.status) (sym same) ∙ is_active,
        ap (λ x. is_expired manager ctx.now x) (sym same) ∙ fresh,
        kept,
      )

  -- A recipe that is found is the newest stored version of the site, is active and has not expired,
  -- and finding it writes nothing.
  pub get-some :
      (domain goal : String) (r : SiteRecipe) (db : Database)
      → (get manager ctx domain goal db).0 ≡ ok (some r)
      → ((get_recipe ctx.fence ctx.reading domain goal db).0 ≡ ok (some r))
        × (r.status ≡ active)
        × (is_expired manager ctx.now r ≡ false)
        × ((get manager ctx domain goal db).1 ≡ db)
  unfolding get
  get-some domain goal r db e =
      elim (Result-cases (get_recipe ctx.fence ctx.reading domain goal db).0) [
        | inr (f, failed) ↦ absurd (ground (arith, e, failed))
        | inl (o, read) ↦
            let answer : get manager ctx domain goal db ≡ found manager ctx o db =
              rw (read, get_recipe-same_database ctx.fence ctx.reading domain goal db) refl in
            let (same, is_active, fresh, kept) =
              found-some o r db (ap (λ x. x.0) (sym answer) ∙ e) in
            (read ∙ ap ok same, is_active, fresh, ap (λ x. x.1) answer ∙ kept)
      ]

-- A call in which the driver raises nothing.
abbrev pub steady : ℕ → ℕ → Option LeaseFence → Context
steady now pruned_at fence = record {
  now = now;
  pruned_at = pruned_at;
  fence = fence;
  reading = none;
  saving = none;
  pruning = none;
}

module _ (manager : RecipeManager) (now pruned_at : ℕ) (fence : Option LeaseFence) where
  abbrev here : Context
  here = steady now pruned_at fence

  -- What has been stored, as the newest version of its site, is what is found there.
  pub store-get_recipe :
      (h : Held)
      → UniqueVersions h.db.recipes
      → IsNewest h.recipe h.db.recipes
      → (store manager here h).0 ≡ ok tt
      → (get_recipe fence none h.recipe.domain h.recipe.goal (store manager here h).1.db).0
        ≡ ok (some h.recipe)
  unfolding store cleanup
  store-get_recipe h u new e = elim (Result-cases (save_recipe fence none now h.recipe h.db).0) [
    | inr (f, failed) ↦ absurd (ground (arith, e, failed))
    | inl (_, saved) ↦
        let s = (save_recipe fence none now h.recipe h.db).1 in
        elim (Result-cases
          (prune_recipe_versions fence none pruned_at h.recipe.domain h.recipe.goal
            manager.keep_versions s).0) [
              | inr (f, failed) ↦ absurd (ground (arith, e, saved, failed))
              | inl (n, pruned) ↦
                  rw (saved, pruned)
                    (prune_recipe_versions-same fence fence pruned_at h.recipe.domain h.recipe.goal
                        manager.keep_versions n s pruned
                      ∙ save_recipe-get_recipe fence fence now h.recipe h.db u new saved)
            ]
  ]

  below_next :
      (x y : RecipeRow)
      → newest x y ≡ true
      → x.body.version ≡ x.version
      → y.version ≤ x.body.version + 1
  unfolding newest
  below_next x y h e = ground arith

  -- What `candidate` makes, written out.
  abbrev drafted : String → String → String → List RecipeStep → Database → SiteRecipe
  drafted id domain goal steps db =
      draft manager here id domain goal steps
        (Option.map (λ (row : RecipeRow). row.body) (latest domain goal db.recipes))

  -- The version of a draft is above those of its site.
  draft-IsNewest :
      (id domain goal : String) (steps : List RecipeStep) (db : Database)
      → All (λ (row : RecipeRow). row.body.version ≡ row.version) db.recipes
      → IsNewest (drafted id domain goal steps db) db.recipes
  unfolding draft next_version
  draft-IsNewest id domain goal steps db same =
      elim (Option-cases (latest domain goal db.recipes)) [
        | inl e ↦ rw e (
            All-map _ _ (λ row off on. absurd (false≢true (sym off ∙ on))) db.recipes
              (latest-none domain goal db.recipes e))
        | inr (x, e) ↦
            let (site, least, holds) = latest-some domain goal db.recipes x e in
            rw e (
              All-map _ _ (λ y before on. below_next x y (before on) (holds _ same)) db.recipes
                least)
      ]

  draft-mark_success :
      (id domain goal : String) (steps : List RecipeStep) (db : Database)
      → UniqueVersions db.recipes
      → All (λ (row : RecipeRow). row.body.version ≡ row.version) db.recipes
      → (mark_success manager here (record { recipe = drafted id domain goal steps db; db = db })).0
        ≡ ok tt
      → (get_recipe fence none domain goal
          (mark_success manager here
            (record { recipe = drafted id domain goal steps db; db = db })).1.db).0
        ≡ ok (some (credited now (promoted now (drafted id domain goal steps db))))
  unfolding mark_success succeed_as draft credited promoted
  draft-mark_success id domain goal steps db u same e =
      store-get_recipe
        (record { recipe = credited now (promoted now (drafted id domain goal steps db)); db = db })
        u (draft-IsNewest id domain goal steps db same) e

  -- A candidate that is made for a site and then replayed with success becomes active, and is the
  -- recipe that is found for the site afterwards, if no write fails, the stored versions are
  -- distinct for each site, and each row has the version of its recipe.
  pub new_candidate-mark_success :
      (id domain goal : String) (steps : List RecipeStep) (db : Database) (r : SiteRecipe)
      → UniqueVersions db.recipes
      → All (λ (row : RecipeRow). row.body.version ≡ row.version) db.recipes
      → (new_candidate manager here id domain goal steps db).0 ≡ ok r
      → (mark_success manager here (record { recipe = r; db = db })).0 ≡ ok tt
      → (get_recipe fence none domain goal
          (mark_success manager here (record { recipe = r; db = db })).1.db).0
        ≡ ok (
            some (record r {
              status = active;
              verified_at = some now;
              last_success_at = some now;
              failures = 0;
              successes = r.successes + 1;
              invalidation_reason = none;
              invalidated_at = none;
            }))
  unfolding new_candidate credited promoted
  new_candidate-mark_success id domain goal steps db r u same made e =
      let is_draft : drafted id domain goal steps db ≡ r =
        ground (arith, made, get_recipe-latest fence domain goal db) in
      subst
        (λ q.
          (mark_success manager here (record { recipe = q; db = db })).0 ≡ ok tt
          → (get_recipe fence none domain goal
              (mark_success manager here (record { recipe = q; db = db })).1.db).0
            ≡ ok (some (credited now (promoted now q))))
        is_draft (draft-mark_success id domain goal steps db u same) e
