-- ===== src/Recipes/Failures.antt =====
-- recipes/service.py: failures in a row retire a recipe, and a retired recipe stays as it is.
use argus_web_intelligence.Prelude.{
  ℕ, ◌+◌, ◌≤◌, ◌<◌, String, true, List, [], ◌∷◌, leb, leb→le, ◌≡◌, refl, arith, Bool-cases, inl,
  inr, length, ◌∙◌, ap,
}
use argus_web_intelligence.Prelude.Action.{Result, ok, err, pure, continue}
use argus_web_intelligence.Contracts.{SiteRecipe, RecipeStatus, candidate, active, invalidated}
use argus_web_intelligence.Storage.{StorageError}
use argus_web_intelligence.Recipes.{
  RecipeManager, Context, Held, mark_failure, after_failure, store, fail_as,
}

-- A failure of a recipe that is retired changes nothing.
mark_failure-retired :
    (manager : RecipeManager) (ctx : Context) (reason : String) (h : Held)
    → h.recipe.status ≡ invalidated
    → mark_failure manager ctx reason h ≡ (ok true, h)
unfolding mark_failure
mark_failure-retired manager ctx reason h e = rw e refl

-- What storing answers changes nothing in the recipe.
continue-recipe :
    {A B : Type 0} (r : Result StorageError A) (b : B) (h : Held)
    → (continue r (λ _. pure b) h).1.recipe ≡ h.recipe
continue-recipe (ok a) b h = refl
continue-recipe (err e) b h = refl

-- Failures that are reported one after the other.
unfoldable pub fail_all : RecipeManager → List (Context × String) → Held → Held
fail_all manager [] h = h
fail_all manager ((ctx, reason) ∷ rest) h =
    fail_all manager rest (mark_failure manager ctx reason h).1

module _ (manager : RecipeManager) where
  fail_as-recipe :
      (ctx : Context) (s : RecipeStatus) (reason : String) (h : Held)
      → s ≡ active
      → (fail_as manager ctx s reason h).1.recipe
        ≡ after_failure manager.failure_threshold ctx.now reason h.recipe
  unfolding fail_as store
  fail_as-recipe ctx candidate reason h e = cc
  fail_as-recipe ctx invalidated reason h e = cc
  fail_as-recipe ctx active reason h e =
      let blamed_held = record h {
        recipe = after_failure manager.failure_threshold ctx.now reason h.recipe;
      } in
      let (answer, stored) = store manager ctx blamed_held in
      continue-recipe answer (leb manager.failure_threshold (h.recipe.failures + 1)) stored

  mark_failure-recipe :
      (ctx : Context) (reason : String) (h : Held)
      → h.recipe.status ≡ active
      → (mark_failure manager ctx reason h).1.recipe
        ≡ after_failure manager.failure_threshold ctx.now reason h.recipe
  unfolding mark_failure
  mark_failure-recipe ctx reason h e = fail_as-recipe ctx h.recipe.status reason h e

  after_failure_cases :
      (now : ℕ) (reason : String) (r : SiteRecipe)
      → r.status ≡ active
      → (r.failures + 1 < manager.failure_threshold
          → ((after_failure manager.failure_threshold now reason r).status ≡ active)
            × ((after_failure manager.failure_threshold now reason r).failures ≡ r.failures + 1))
        × (manager.failure_threshold ≤ r.failures + 1
            → ((after_failure manager.failure_threshold now reason r).status ≡ invalidated)
              × ((after_failure manager.failure_threshold now reason r).failures ≡ r.failures + 1))
  unfolding after_failure
  after_failure_cases now reason r e = ground arith

  fail_all-retired :
      (calls : List (Context × String)) (h : Held)
      → h.recipe.status ≡ invalidated
      → fail_all manager calls h ≡ h
  unfolding fail_all
  fail_all-retired [] h e = refl
  fail_all-retired ((ctx, reason) ∷ rest) h e =
      rw (mark_failure-retired manager ctx reason h e) (fail_all-retired rest h e)

  -- An active recipe with fewer failures than the threshold stays active while the failures in a row
  -- are fewer than the threshold, and is retired by the failure that reaches it, whatever becomes of
  -- the writes to the database; later failures count no more.
  pub fail_all_cases :
      (calls : List (Context × String)) (h : Held)
      → h.recipe.status ≡ active
      → h.recipe.failures < manager.failure_threshold
      → (h.recipe.failures + length calls < manager.failure_threshold
          → ((fail_all manager calls h).recipe.status ≡ active)
            × ((fail_all manager calls h).recipe.failures ≡ h.recipe.failures + length calls))
        × (manager.failure_threshold ≤ h.recipe.failures + length calls
            → ((fail_all manager calls h).recipe.status ≡ invalidated)
              × ((fail_all manager calls h).recipe.failures ≡ manager.failure_threshold))
  unfolding fail_all
  fail_all_cases [] h e few = ground arith
  fail_all_cases ((ctx, reason) ∷ rest) h e few =
      let next = (mark_failure manager ctx reason h).1 in
      let after = mark_failure-recipe ctx reason h e in
      let (below, reached) = after_failure_cases ctx.now reason h.recipe e in
      elim (Bool-cases (leb manager.failure_threshold (h.recipe.failures + 1))) [
        | inl full ↦
            let (status, count) = reached (leb→le _ _ full) in
            let status' = ap (λ r. r.status) after ∙ status in
            let count' = ap (λ r. r.failures) after ∙ count in
            rw (fail_all-retired rest next status') (ground (arith, status', count'))
        | inr early ↦
            let (status, count) = below (ground (arith, early)) in
            let status' = ap (λ r. r.status) after ∙ status in
            let count' = ap (λ r. r.failures) after ∙ count in
            let (stays, retires) =
              fail_all_cases rest next status' (ground (arith, count', early)) in
            ground (arith, count', stays, retires)
      ]
