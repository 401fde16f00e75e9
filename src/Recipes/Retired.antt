-- ===== src/Recipes/Retired.antt =====
-- recipes/service.py: a recipe that has been retired is not handed out again.
use argus_web_intelligence.Prelude.{
  ℕ, ◌+◌, String, Bool, Bool-cases, false≢true, true, false, Option, none, ◌≡◌, refl, arith, ap,
  sym, ◌∙◌, subst, inl, inr, leb,
}
use argus_web_intelligence.Prelude.Action.{Result, ok, err, pure, continue}
use argus_web_intelligence.Contracts.{active, invalidated}
use argus_web_intelligence.Storage.{StorageError}
use argus_web_intelligence.Storage.Fencing.{LeaseFence}
use argus_web_intelligence.Storage.Recipes.Versions.{UniqueVersions}
use argus_web_intelligence.Storage.Recipes.Latest.{IsNewest}
use argus_web_intelligence.Recipes.{
  RecipeManager, Context, Held, mark_failure, invalidate, invalidate_as, retired, after_failure,
  store, get, found, found_as, fail_as, blamed,
}
use argus_web_intelligence.Recipes.Found.{steady, store-get_recipe, get_recipe-same_database}

module _ (manager : RecipeManager) (now pruned_at : ℕ) (fence : Option LeaseFence) where
  abbrev here : Context
  here = steady now pruned_at fence

  -- A retired recipe that has been stored as the newest version of its site is found by nobody.
  store-get :
      (h : Held) (later : ℕ)
      → UniqueVersions h.db.recipes
      → IsNewest h.recipe h.db.recipes
      → h.recipe.status ≡ invalidated
      → (store manager here h).0 ≡ ok tt
      → get manager
          (steady later later fence)
          h.recipe.domain
          h.recipe.goal
          (store manager here h).1.db
        ≡ (ok none, (store manager here h).1.db)
  unfolding get found found_as
  store-get h later u new gone e =
      rw
        (
          store-get_recipe manager now pruned_at fence h u new e,
          get_recipe-same_database fence none h.recipe.domain h.recipe.goal
              (store manager here h).1.db,
          gone,
        )
        refl

  abbrev retired_one : String → Held → Held
  retired_one reason h = record h { recipe = retired now reason h.recipe }

  abbrev failed_one : String → Held → Held
  failed_one reason h = record h { recipe = retired now reason (blamed now h.recipe) }

  invalidate-store :
      (reason : String) (h : Held)
      → h.recipe.status ≡ active
      → invalidate manager here reason h ≡ store manager here (retired_one reason h)
  unfolding invalidate invalidate_as
  invalidate-store reason h e = rw e refl

  -- What `mark_failure` answers is whether the recipe has been retired.
  answered :
      (b : Bool) (x : Result StorageError (Unit {0}) × Held)
      → (continue x.0 (λ _. pure b) x.1).0 ≡ ok true
      → (x.0 ≡ ok tt) × (b ≡ true) × ((continue x.0 (λ _. pure b) x.1).1 ≡ x.1)
  answered b (ok a, h) e = (refl, ground (arith, e), refl)
  answered b (err x, h) e = cc

  mark_failure-store :
      (reason : String) (h : Held)
      → h.recipe.status ≡ active
      → (mark_failure manager here reason h).0 ≡ ok true
      → ((store manager here (failed_one reason h)).0 ≡ ok tt)
        × ((mark_failure manager here reason h).1 ≡ (store manager here (failed_one reason h)).1)
  unfolding mark_failure fail_as after_failure blamed retired
  mark_failure-store reason h e =
      elim (Bool-cases (leb manager.failure_threshold (h.recipe.failures + 1))) [
        | inl over ↦
            rw (e, over)
              (λ f.
                let (went, _, same) = answered true (store manager here (failed_one reason h)) f in
                (went, same))
        | inr under ↦ rw (e, under) (λ f. absurd (false≢true (answered false _ f).1))
      ]

  -- An active recipe that is the newest stored version of its site, and is retired by an
  -- invalidation, or by the failure that `mark_failure` answers with True, is not found for the site
  -- afterwards, at any time, though older versions are stored: if the writes went through and the
  -- stored versions are distinct for each site, the answer is None, and finding it changes nothing.
  pub retired_recipe-get :
      (reason : String) (h : Held) (later : ℕ)
      → UniqueVersions h.db.recipes
      → IsNewest h.recipe h.db.recipes
      → h.recipe.status ≡ active
      → ((invalidate manager here reason h).0 ≡ ok tt
          → get manager
              (steady later later fence)
              h.recipe.domain
              h.recipe.goal
              (invalidate manager here reason h).1.db
            ≡ (ok none, (invalidate manager here reason h).1.db))
        × ((mark_failure manager here reason h).0 ≡ ok true
            → get manager
                (steady later later fence)
                h.recipe.domain
                h.recipe.goal
                (mark_failure manager here reason h).1.db
              ≡ (ok none, (mark_failure manager here reason h).1.db))
  unfolding retired blamed
  retired_recipe-get reason h later u new e = (
    λ f.
        let same = invalidate-store reason h e in
        subst
          (λ x.
            get manager (steady later later fence) h.recipe.domain h.recipe.goal x.1.db
            ≡ (ok none, x.1.db))
          (sym same)
          (store-get (retired_one reason h) later u new refl (ap (λ x. x.0) (sym same) ∙ f)),
    λ f.
        let (stored, same) = mark_failure-store reason h e f in
        subst
          (λ (x : Held).
            get manager (steady later later fence) h.recipe.domain h.recipe.goal x.db
            ≡ (ok none, x.db))
          (sym same) (store-get (failed_one reason h) later u new refl stored),
  )
