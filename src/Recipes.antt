-- ===== src/Recipes.antt =====
-- recipes/service.py: the lifecycle of a site's recipe. The manager changes the recipe that its
-- caller holds, and then stores it: the state is the recipe beside the database, and what was
-- changed in the recipe stays changed if storing it fails. The domain that `_domain` reads from a
-- URL is an argument.
pub mod Failures
pub mod Found
pub mod Retired
mod Examples
use argus_web_intelligence.Prelude.{
  ℕ, ◌+◌, ◌*◌, max, String, Bool, true, false, List, [], ◌∷◌, Option, none, some, if◌then◌else◌,
  leb, when_none,
}
use argus_web_intelligence.Prelude.Text.{clip}
use argus_web_intelligence.Prelude.Action.{
  Action, Result, ok, err, raise, pure, ◌>>=◌, ◌>>◌, continue,
}
use argus_web_intelligence.Contracts.{
  SiteRecipe, RecipeStep, RecipeStatus, candidate, active, invalidated, day,
}
use argus_web_intelligence.Storage.{Database, Storage, StorageError, value_error}
use argus_web_intelligence.Storage.Fencing.{LeaseFence}
use argus_web_intelligence.Storage.Recipes.{save_recipe, get_recipe, prune_recipe_versions}

pub record RecipeManager : Type 0 where
  pub failure_threshold : ℕ
  pub max_age_days : ℕ
  pub keep_versions : ℕ

-- RecipeManager.__init__
unfoldable pub recipe_manager : ℕ → ℕ → ℕ → RecipeManager
recipe_manager failure_threshold max_age_days keep_versions = record {
  failure_threshold = max 1 failure_threshold;
  max_age_days = max 1 max_age_days;
  keep_versions = max 1 keep_versions;
}

-- Where a call is made: the times of its statements, the fence, and what the driver raises in each statement.
pub record Context : Type 0 where
  pub now : ℕ
  pub pruned_at : ℕ
  pub fence : Option LeaseFence
  pub reading : Option StorageError
  pub saving : Option StorageError
  pub pruning : Option StorageError

pub record Held : Type 0 where
  pub recipe : SiteRecipe
  pub db : Database

abbrev pub Lifecycle : Type 0 → Type 0
Lifecycle A = Action Held StorageError A

abbrev on_database : {A : Type 0} → (SiteRecipe → Storage A) → Lifecycle A
on_database f h = let (r, db) = f h.recipe h.db in (r, record h { db = db })

-- The assignments that a method makes to its recipe.
abbrev assign : (SiteRecipe → SiteRecipe) → Lifecycle (Unit {0})
assign f h = (ok tt, record h { recipe = f h.recipe })

module _ (manager : RecipeManager) (ctx : Context) where
  -- RecipeManager._cleanup
  unfoldable pub cleanup : SiteRecipe → Storage ℕ
  cleanup r =
      prune_recipe_versions ctx.fence ctx.pruning ctx.pruned_at r.domain r.goal
        manager.keep_versions

  -- await self.repository.save_recipe(recipe); await self._cleanup(recipe)
  unfoldable pub store : Lifecycle (Unit {0})
  unfolding cleanup
  store = on_database (λ r. save_recipe ctx.fence ctx.saving ctx.now r >> (cleanup r >> pure tt))

unfoldable pub promoted : ℕ → SiteRecipe → SiteRecipe
promoted now r = record r { status = active; verified_at = some now }

unfoldable pub credited : ℕ → SiteRecipe → SiteRecipe
credited now r = record r {
  last_success_at = some now;
  failures = 0;
  successes = r.successes + 1;
  invalidation_reason = none;
  invalidated_at = none;
}

unfoldable pub blamed : ℕ → SiteRecipe → SiteRecipe
blamed now r = record r {
  failures = r.failures + 1;
  total_failures = r.total_failures + 1;
  last_failure_at = some now;
}

unfoldable pub retired : ℕ → String → SiteRecipe → SiteRecipe
unfolding clip
retired now reason r = record r {
  status = invalidated;
  invalidated_at = some now;
  invalidation_reason = some (clip 256 reason);
}

-- The recipe after `mark_failure` has counted a failure, at this threshold.
unfoldable pub after_failure : ℕ → ℕ → String → SiteRecipe → SiteRecipe
unfolding blamed retired
after_failure threshold now reason r =
    let r' = blamed now r in if leb threshold r'.failures then retired now reason r' else r'

-- RecipeManager._expired, with the subtraction moved over
unfoldable pub is_expired : RecipeManager → ℕ → SiteRecipe → Bool
is_expired manager now r =
    leb
      (when_none r.last_success_at (when_none r.verified_at r.created_at)
        + manager.max_age_days * day)
      now

module _ (manager : RecipeManager) (ctx : Context) where
  save_as : RecipeStatus → Lifecycle (Unit {0})
  save_as candidate = raise value_error
  save_as _ = store manager ctx

  -- RecipeManager.save
  unfoldable pub save : Lifecycle (Unit {0})
  unfolding save_as
  save h = save_as h.recipe.status h

  unfoldable pub succeed_as : RecipeStatus → Lifecycle (Unit {0})
  succeed_as candidate = assign (λ r. credited ctx.now (promoted ctx.now r)) >> store manager ctx
  succeed_as active = assign (credited ctx.now) >> store manager ctx
  succeed_as invalidated = raise value_error

  -- RecipeManager.mark_success
  unfoldable pub mark_success : Lifecycle (Unit {0})
  unfolding succeed_as
  mark_success h = succeed_as h.recipe.status h

  unfoldable pub fail_as : RecipeStatus → String → Lifecycle Bool
  fail_as candidate reason h = (ok false, h)
  fail_as invalidated reason h = (ok true, h)
  fail_as active reason h =
      (assign (after_failure manager.failure_threshold ctx.now reason)
          >> (store manager ctx >> pure (leb manager.failure_threshold (h.recipe.failures + 1))))
        h

  -- RecipeManager.mark_failure
  unfoldable pub mark_failure : String → Lifecycle Bool
  unfolding fail_as
  mark_failure reason h = fail_as h.recipe.status reason h

  invalidate_as : RecipeStatus → String → Lifecycle (Unit {0})
  invalidate_as invalidated reason = pure tt
  invalidate_as _ reason = assign (retired ctx.now reason) >> store manager ctx

  -- RecipeManager.invalidate
  unfoldable pub invalidate : String → Lifecycle (Unit {0})
  unfolding invalidate_as
  invalidate reason h = invalidate_as h.recipe.status reason h

  unfoldable pub found_as : RecipeStatus → SiteRecipe → Storage (Option SiteRecipe)
  unfolding invalidate
  found_as active r db =
      if is_expired manager ctx.now r
      then (let (answer, h) = invalidate "expired" (record { recipe = r; db = db }) in
          continue answer (λ _. pure none) h.db)
      else (ok (some r), db)
  found_as _ r db = (ok none, db)

  unfoldable pub found : Option SiteRecipe → Storage (Option SiteRecipe)
  unfolding found_as
  found none db = (ok none, db)
  found (some r) db = found_as r.status r db

  -- RecipeManager.get
  unfoldable pub get : String → String → Storage (Option SiteRecipe)
  unfolding found
  get domain goal = get_recipe ctx.fence ctx.reading domain goal >>= found

  unfoldable pub next_version : Option SiteRecipe → ℕ
  next_version none = 1
  next_version (some current) = current.version + 1

  -- The recipe that RecipeManager.candidate makes, with the identifier that uuid4 gives
  unfoldable pub draft : String → String → String → List RecipeStep → Option SiteRecipe → SiteRecipe
  unfolding next_version
  draft id domain goal steps current = record {
    recipe_id = id;
    domain = domain;
    goal = goal;
    version = next_version current;
    steps = steps;
    created_at = ctx.now;
    status = candidate;
    verified_at = none;
    last_success_at = none;
    last_failure_at = none;
    invalidated_at = none;
    invalidation_reason = none;
    failures = 0;
    successes = 0;
    total_failures = 0;
  }

  -- RecipeManager.candidate
  unfoldable pub new_candidate : String → String → String → List RecipeStep → Storage SiteRecipe
  new_candidate id domain goal steps = get_recipe ctx.fence ctx.reading domain goal >>= λ current.
      pure (draft id domain goal steps current)

-- RecipeManager.reject_candidate: an error, or the recipe as it is left
unfoldable pub reject_candidate : ℕ → String → SiteRecipe → Result StorageError SiteRecipe
unfolding retired
reject_candidate now reason r = elim r.status [
  | candidate ↦ ok (
      retired now reason
        (record r { failures = 1; total_failures = 1; last_failure_at = some now }))
  | active ↦ err value_error
  | invalidated ↦ err value_error
]
