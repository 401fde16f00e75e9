-- ===== src/Orchestrator/Run.antt =====
-- orchestrator/service.py, CollectionOrchestrator._run: planning, search and the task loop of one
-- collection, and what becomes of exceptions.
pub mod Ended
use argus_web_intelligence.Prelude.{
  ℕ, String, Bool, true, false, ◌&&◌, ◌||◌, not, List, [], ◌∷◌, ◌++◌, keep, Option, none, some,
  when_none, if◌then◌else◌,
}
use argus_web_intelligence.Prelude.Action.{
  Action, Result, ok, err, ◌>>=◌, ◌>>◌, pure, raise, continue,
}
use argus_web_intelligence.Prelude.Order.{order_by}
use argus_web_intelligence.Prelude.Collation.{code_point_le}
use argus_web_intelligence.Prelude.Sets.{elem, add_all, set_of}
use argus_web_intelligence.Contracts.{
  CollectionRecord, CollectionStatus, running, blocked, failed, partial, StructuredError,
  Observation, is_cancelled,
}
use argus_web_intelligence.Contracts.Values.{
  Json, bool, array, nil, get_member, set_member, texts, as_texts,
}
use argus_web_intelligence.Orchestrator.{SourceTask, Repository, Progress}
use argus_web_intelligence.Orchestrator.Tasks.{load_tasks, task_dicts, merge_tasks}
use argus_web_intelligence.Orchestrator.Final.{is_full}
use argus_web_intelligence.Orchestrator.Turn.{Turn, Settings}
use argus_web_intelligence.Orchestrator.Process.{
  Ending, done, cancelled_seen, unfinished, is_cancelled_now, is_stored_cancelled, process, finish,
  begin, Loop, left, returned, out_of_turns, ensure_execution_budget_started,
}
use argus_web_intelligence.Orchestrator.Planning.{
  ResearchPlan, Adapter, Ask, Discovery, initial_tasks, discover_uncovered_intents,
}

-- What the environment brings to a run: one reading of the clock (the turns have their own), the answers of planner, sources and search, and
-- whether the collection is cancelled in this process at each place where the run looks.
pub record Surroundings (E : Type 0) : Type 0 where
  pub now : ℕ
  pub plan : Result E ResearchPlan
  pub cancelled_planned : Bool
  pub cancelled_offered : Bool
  pub cancelled_searched : Bool
  pub cancelled_prepared : Bool
  pub cancelled_at_end : Bool
  pub adapters : List (Adapter E)
  pub max_queries : Option ℕ
  pub asks : ℕ → Ask E
  pub turns : List (Turn E)

-- Which exceptions are cancellations, the message that safe_error_message makes of the others, and
-- the exception of a checkpoint that cannot be read.
pub record Exceptions (E : Type 0) : Type 0 where
  pub is_cancellation : E → Bool
  pub message : E → String
  pub bad_checkpoint : E

-- The local variables between planning and the task loop.
pub record Planned : Type 0 where
  pub collection : CollectionRecord
  pub pending : List SourceTask
  pub initial_complete : Bool
  pub covered : List String
  pub queries : List String
  pub providers : List String
  pub blocked : Bool

-- `bool(value)`, for the flags that the run writes itself
unfoldable pub is_set : Option Json → Bool
is_set (some (bool b)) = b
is_set _ = false

-- The record of a run that has begun
unfoldable pub planning : ℕ → CollectionRecord → CollectionRecord
planning now r = record r { status = running; stage = some "research_planning"; updated_at = now }

-- What the run takes from the checkpoint
unfoldable pub resumed : CollectionRecord → List SourceTask → Planned
unfolding is_set get_member as_texts
resumed r pending = record {
  collection = r;
  pending = pending;
  initial_complete = is_set (get_member "planning_initial_tasks_complete" r.checkpoint);
  covered = set_of (as_texts (get_member "covered_intents" r.checkpoint));
  queries = as_texts (get_member "discovery_queries" r.checkpoint);
  providers = as_texts (get_member "discovery_providers" r.checkpoint);
  blocked = is_set (get_member "discovery_blocked" r.checkpoint);
}

-- The record after the sources have been asked
unfoldable pub offered : ℕ → Planned → Planned
unfolding set_member texts task_dicts
offered now d = record d {
  collection = record d.collection {
    checkpoint = set_member "pending_tasks" (task_dicts d.pending) (
        set_member "covered_intents" (texts (order_by code_point_le d.covered))
          (set_member "planning_initial_tasks_complete" (bool true) d.collection.checkpoint));
    updated_at = now;
  };
  initial_complete = true;
}

kept_queries : Option Json → Json
kept_queries none = array nil
kept_queries (some v) = v

-- The record with the finished plan
unfoldable pub planned_record : ResearchPlan → Planned → CollectionRecord
unfolding kept_queries set_member get_member texts task_dicts
planned_record plan d = record d.collection {
  checkpoint = set_member "visited" (kept_queries (get_member "visited" d.collection.checkpoint)) (
      set_member "pending_tasks" (task_dicts d.pending) (
        set_member "historical_branch_queries"
          (kept_queries (get_member "historical_branch_queries" d.collection.checkpoint))
          (set_member "discovery_blocked" (bool d.blocked) (
            set_member "discovery_providers" (texts d.providers) (
              set_member "discovery_queries" (texts d.queries) (
                set_member "covered_intents" (texts (order_by code_point_le d.covered)) (
                  set_member "planning_initial_tasks_complete" (bool d.initial_complete) (
                    set_member "planning_complete" (bool true) (
                      set_member "planner_notes" (texts plan.notes) (
                        set_member "queries" (texts plan.queries) d.collection.checkpoint))))))))));
}

-- The record of a collection for which there is nothing to fetch
unfoldable pub without_tasks : ℕ → Bool → CollectionRecord → CollectionRecord
without_tasks now true r = record r {
  status = blocked;
  partial = false;
  progress_percent = 100;
  stage = some "blocked:discovery";
  updated_at = now;
}
without_tasks now false r = record r {
  errors =
      r.errors
      ++ record {
        code = "NO_SOURCE_TASKS";
        message =
            "Research plan produced no executable source tasks. Provide seed URLs or configure a discovery provider.";
        retryable = false;
        source_id = none;
      }
        ∷ [];
  status = failed;
  stage = some "failed:no_sources";
  updated_at = now;
}

-- The record after an exception that is no cancellation
unfoldable pub failed_record : ℕ → String → Bool → CollectionRecord → CollectionRecord
failed_record now message has_data r =
    let partly = r.request.allow_partial && has_data in
    record r {
      errors =
          r.errors
          ++ record {
            code = "COLLECTION_FAILED";
            message = message;
            retryable = false;
            source_id = none;
          }
            ∷ [];
      status = if partly then partial else failed;
      partial = partly;
      stage = some "failed";
      updated_at = now;
    }

module _ {S E : Type 0} (repository : Repository S E) (settings : Settings)
    (exceptions : Exceptions E) (w : Surroundings E) where
  -- `if await self._is_cancelled(collection_id): return`
  unless_cancelled : {A : Type 0} → Bool → String → Action S E (Option A) → Action S E (Option A)
  unfolding is_cancelled_now
  unless_cancelled here id m =
      is_cancelled_now repository here id >>= λ stop. if stop then pure none else m

  lift : {A : Type 0} → Result E A → Action S E A
  lift r s = (r, s)

  -- The tasks of the sources, if they have not been asked before
  ask_sources : Planned → Action S E Planned
  unfolding lift offered
  ask_sources d =
      if d.initial_complete
      then pure d
      else (lift (initial_tasks d.collection w.adapters ([], []) []) >>= λ found.
          let (tasks, covered) = found in
          let d' = offered w.now (record d {
            pending = merge_tasks d.collection.collection_id d.pending tasks;
            covered = add_all covered d.covered;
          }) in
          repository.update_collection d'.collection >> pure d')

  -- The search for the intents that are not covered
  search_uncovered : Planned → Action S E Planned
  unfolding discover_uncovered_intents
  search_uncovered d =
      let uncovered = keep (λ i. not (elem i d.covered)) d.collection.request.intents in
      elim w.max_queries [
        | none ↦ pure d
        | some n ↦
            if is_full uncovered
            then (discover_uncovered_intents repository n w.now w.asks d.collection d.pending
                  uncovered
                >>= λ found. pure (record d {
                  collection = found.collection;
                  pending = found.pending;
                  queries = found.queries;
                  providers = found.providers;
                  blocked = found.blocked;
                }))
            else pure d
      ]

  -- The block under `if not planning_complete`
  plan_tasks : ResearchPlan → Planned → Action S E (Option Planned)
  unfolding unless_cancelled ask_sources search_uncovered
  plan_tasks plan d =
      let id = d.collection.collection_id in
      if is_set (get_member "planning_complete" d.collection.checkpoint)
      then pure (some d)
      else (ask_sources d >>= λ d1. unless_cancelled w.cancelled_offered id (
          search_uncovered d1 >>= λ d2.
          unless_cancelled w.cancelled_searched id
            (pure (some (record d2 { pending = merge_tasks id d2.pending plan.tasks })))))

  -- _process_tasks after the loop
  end_loop : ℕ → Loop → Action S E Ending
  unfolding finish
  end_loop started_at (left exhausted p) =
      finish repository settings started_at w.cancelled_at_end w.now exhausted p
  end_loop started_at returned = pure cancelled_seen
  end_loop started_at out_of_turns = pure unfinished

  run_loop : List SourceTask → ℕ × CollectionRecord → Action S E Ending
  unfolding process begin end_loop
  run_loop pending (started_at, r) =
      process repository settings started_at w.turns (begin r pending) >>= end_loop started_at

  -- The call of _process_tasks
  run_tasks : List SourceTask → CollectionRecord → Action S E Ending
  unfolding run_loop ensure_execution_budget_started
  run_tasks pending r =
      ensure_execution_budget_started repository settings w.now w.now r >>= run_loop pending

  -- What follows the write of the plan
  run_or_close : Planned → CollectionRecord → Unit {0} → Action S E Ending
  unfolding run_tasks without_tasks
  run_or_close d r _ =
      if is_full d.pending || is_full (as_texts (get_member "visited" r.checkpoint))
      then run_tasks d.pending r
      else (repository.update_collection (without_tasks w.now d.blocked r) >> pure done)

  -- From the finished plan on
  execute : ResearchPlan → Planned → Action S E Ending
  unfolding planned_record run_or_close
  execute plan d =
      repository.update_collection (planned_record plan d)
      >>= run_or_close d (planned_record plan d)

  -- What is given back where the run has returned early
  or_seen : (Planned → Action S E Ending) → Option Planned → Action S E Ending
  or_seen k none = pure cancelled_seen
  or_seen k (some d) = k d

  -- After the planning block
  prepare : CollectionRecord → ResearchPlan → Planned → Action S E Ending
  unfolding unless_cancelled or_seen execute
  prepare r plan d =
      unless_cancelled w.cancelled_prepared r.collection_id (pure (some d))
      >>= or_seen (execute plan)

  run_plan : CollectionRecord → ResearchPlan → Action S E Ending
  unfolding plan_tasks unless_cancelled or_seen prepare
  run_plan r plan =
      unless_cancelled w.cancelled_planned r.collection_id (elim (load_tasks r) [
        | none ↦ raise exceptions.bad_checkpoint
        | some pending ↦ plan_tasks plan (resumed r pending)
      ])
      >>= or_seen (prepare r plan)

  -- The block under `try`
  attempt_run : CollectionRecord → Action S E Ending
  unfolding lift run_plan
  attempt_run r = lift w.plan >>= run_plan r

  store_failure : CollectionRecord → E → List Observation → Action S E Ending
  unfolding failed_record
  store_failure r e observations =
      repository.update_collection
        (failed_record w.now (exceptions.message e) (is_full observations) r)
      >> pure done

  fail_latest : CollectionRecord → E → Option CollectionRecord → Action S E Ending
  unfolding is_stored_cancelled store_failure
  fail_latest r e latest =
      if is_stored_cancelled latest
      then pure cancelled_seen
      else (repository.list_observations r.collection_id >>= store_failure (when_none latest r) e)

  -- `except Exception`; without a stored record the update that follows has nothing to write to
  record_exception : CollectionRecord → E → Action S E Ending
  unfolding fail_latest
  record_exception r e = repository.get_collection r.collection_id >>= fail_latest r e

  guard : CollectionRecord → Result E Ending × S → Result E Ending × S
  unfolding record_exception
  guard r (ok x, s) = (ok x, s)
  guard r (err e, s) = if exceptions.is_cancellation e then (err e, s) else record_exception r e s

  -- The attempt, and its handlers
  try_run : CollectionRecord → Unit {0} → Action S E Ending
  unfolding attempt_run guard
  try_run r _ s = guard r (attempt_run r s)

  run_found : Option CollectionRecord → Action S E Ending
  unfolding try_run planning
  run_found none = pure cancelled_seen
  run_found (some r) =
      let started = planning w.now r in
      if is_cancelled r.status
      then pure cancelled_seen
      else (repository.update_collection started >>= try_run started)

  -- CollectionOrchestrator._run, when the semaphore has let it in
  unfoldable pub run : String → Action S E Ending
  unfolding run_found
  run collection_id = repository.get_collection collection_id >>= run_found
