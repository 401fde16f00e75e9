-- ===== src/Orchestrator/Examples.antt =====
-- Runs of a worker over a small database, on which the theorems about the orchestrator are tried.
use argus_web_intelligence.Prelude.{
  ℕ, zero, length, ◌≤◌, suc, ◌*◌, String, true, false, List, [], ◌∷◌, none, some, ◌≡◌, refl, arith,
}
use argus_web_intelligence.Prelude.Action.{ok, err}
use argus_web_intelligence.Prelude.Collation.{code_point_le}
use argus_web_intelligence.Sql.{Unique, find, count_where, update_where}
use argus_web_intelligence.Contracts.{
  CollectionRecord, running, is_cancelled, is_finished, partial, SourceCoverage, second,
}
use argus_web_intelligence.Contracts.Values.{object, end, get_member, set_member, as_texts}
use argus_web_intelligence.Storage.{CollectionRow_key, StorageError, operational, driver}
use argus_web_intelligence.Storage.Examples.{collection, stored, leased, fence, observation}
use argus_web_intelligence.Storage.Collections.{overwrite, accepts_update}
use argus_web_intelligence.Storage.Queue.{owns_live}
use argus_web_intelligence.Storage.Fencing.{
  fenced_update_collection, current_lease_fence, has_lease,
}
use argus_web_intelligence.Storage.Reads.{list_observations}
use argus_web_intelligence.Storage.Commits.{commit_task_success}
use argus_web_intelligence.Orchestrator.Branch.{expand_historical}
use argus_web_intelligence.Orchestrator.{
  SourceTask, SourceResult, Research, Progress, keys, dedupe_key,
}
use argus_web_intelligence.Orchestrator.Tasks.{
  load_tasks, load_task, task_dict, task_dicts, merge_tasks,
}
use argus_web_intelligence.Orchestrator.Tasks.Merged.{extend, keys-merge_tasks}
use argus_web_intelligence.Orchestrator.Breaker.{apply_breaker, circuit_code, circuit_key}
use argus_web_intelligence.Orchestrator.Breaker.Opening.{
  apply_breaker_lem, after_blocks, is_counted, blocks, circuit_of,
}
use argus_web_intelligence.Orchestrator.Final.{settled}
use argus_web_intelligence.Orchestrator.Final.Status.{settled_status}
use argus_web_intelligence.Orchestrator.Turn.{Turn, Settings, Reply, extracted, opening, succeed}
use argus_web_intelligence.Orchestrator.Process.{process, begin}
use argus_web_intelligence.Orchestrator.Process.Runs.{Leaves, Sound, process-Sound}
use argus_web_intelligence.Orchestrator.Process.Ends.{first, HasEnded, process_ends}
use argus_web_intelligence.Orchestrator.Process.Replay.{Ended}
use argus_web_intelligence.Orchestrator.Process.Recovery.{fresh}
use argus_web_intelligence.Orchestrator.Planning.{Ask, initial_tasks, discover_uncovered_intents}
use argus_web_intelligence.Orchestrator.Planning.Budget.{Returns, discover_uncovered_intents-bound}
use argus_web_intelligence.Orchestrator.Run.{Surroundings, Exceptions, run, is_set, resumed}
use argus_web_intelligence.Orchestrator.Run.Ended.{Closed, run-Finishes}
use argus_web_intelligence.Orchestrator.Lifecycle.{cancel, cancelled_at}
use argus_web_intelligence.Orchestrator.Lifecycle.Cancelled.{api_repository, cancel_cases}
use argus_web_intelligence.Orchestrator.Postgres.{
  Call, Session, fenced_get_collection, worker_repository, worker-Ended, Valid, saved,
}

abbrev page : String → SourceTask
page url = record {
  source_id = "generic_web";
  goal = "reviews";
  url = url;
  depth = 0;
  metadata = object end;
  task_key = none;
}

abbrev settings : Settings
settings = record {
  source_task_timeout = 90 * second;
  host_of = λ url. "example.org";
  general = λ n. "90";
  literal = λ n. "90.0";
  isoformat = λ n. "2026-01-01T00:00:00+00:00";
  fromisoformat = λ s. some 0;
}

abbrev no_research : Research
no_research = record {
  configured = false;
  expand = λ r os qs. ok [];
  discover = λ qs r. err "no discovery";
}

abbrev found_page : SourceResult
found_page = record {
  observations = observation "o-1" ∷ [];
  evidence = [];
  discovered_tasks = page "https://example.org/more" ∷ page "https://example.org/b" ∷ [];
  blocked = false;
  partial = false;
  errors = [];
}

abbrev at : ℕ → Reply StorageError → Turn StorageError
at now reply = record {
  cancelled_here = false;
  now = now;
  started_at = now;
  finished_at = now;
  updated_at = now;
  denied = none;
  reply = reply;
  research = no_research;
}

abbrev tasks : List SourceTask
tasks = page "https://example.org/a" ∷ page "https://example.org/b" ∷ []

abbrev start : CollectionRecord
start = record (collection "c-1" running 10) {
  checkpoint = set_member "pending_tasks" (task_dicts tasks) (object end);
}

abbrev calls : ℕ → List Call
calls zero = []
calls (suc n) = record { now = 100; statements = 0; outage = none } ∷ calls n

-- The driver is there for three calls: a page is committed, and the status is read once more.
abbrev session : Session
session = record { db = record leased { collections = stored start ∷ [] }; calls = calls 3 }

-- Two pages: the commit of the second fails.
abbrev turns : List (Turn StorageError)
turns = at 0 (extracted found_page []) ∷ at 1 (extracted found_page []) ∷ []

rows-Unique : Unique session.db.collections
unfolding find
rows-Unique = (refl, tt)

start-stored : saved "c-1" session ≡ some start
unfolding find
start-stored = refl

start-loads : load_tasks start ≡ some tasks
unfolding load_tasks task_dicts set_member get_member load_task task_dict
start-loads = refl

-- The run is cut off in its second turn.
cut_off :
    (process (worker_repository code_point_le fence) settings 0 turns (begin start tasks) session).0
    ≡ err (driver operational)
unfolding process worker_repository begin set_member fenced_get_collection current_lease_fence find
    is_cancelled commit_task_success succeed expand_historical has_lease owns_live count_where
    dedupe_key update_where overwrite
cut_off = refl

worker-Ended_example :
    Ended
      (worker_repository code_point_le fence)
      settings
      0
      Valid
      "c-1"
      (saved "c-1")
      (begin start tasks)
      session
      (process (worker_repository code_point_le fence) settings 0 turns (begin start tasks) session)
worker-Ended_example =
    worker-Ended code_point_le fence settings 0 start tasks turns session rows-Unique refl
      start-stored start-loads

process-Sound_example :
    Leaves
      (Sound (begin start tasks))
      (process (worker_repository code_point_le fence) settings 0 turns (begin start tasks) session)
process-Sound_example =
    process-Sound (worker_repository code_point_le fence) settings 0 start tasks turns session

process_ends_example :
    (n : ℕ) × HasEnded (worker_repository code_point_le fence) settings 0 (
      process
        (worker_repository code_point_le fence)
        settings
        0
        (first n (λ i. at i (extracted found_page [])))
        (begin start tasks)
        session)
process_ends_example =
    process_ends (worker_repository code_point_le fence) settings 0
      (λ i. at i (extracted found_page [])) (begin start tasks) session

-- The end of a run that has seen a blocked source and has observations.
abbrev blocked_page : SourceCoverage
blocked_page = record (opening (page "https://example.org/a") 0) {
  status = "blocked";
  blocked = true;
}

abbrev ended : Progress
ended = record (begin (record start { coverage = blocked_page ∷ [] }) []) { processed = 1 }

settled_status_example :
    (settled settings 0 9 false (observation "o-1" ∷ []) ended).status ≡ partial
unfolding begin
settled_status_example = (settled_status settings 0 9 false (observation "o-1" ∷ []) ended).1.1 refl

keys-merge_tasks_example :
    keys
      (merge_tasks "c-1" tasks (page "https://example.org/b" ∷ page "https://example.org/c" ∷ []))
    ≡ extend (keys tasks) (keys (page "https://example.org/b" ∷ page "https://example.org/c" ∷ []))
keys-merge_tasks_example =
    keys-merge_tasks "c-1" tasks (page "https://example.org/b" ∷ page "https://example.org/c" ∷ [])

-- Two pages of a host have been blocked; the third opens the circuit.
apply_breaker_lem_example :
    (apply_breaker
      (λ url. "example.org")
      (page "https://example.org/a")
      blocked_page
      (after_blocks
        (λ url. "example.org")
        ((page "https://example.org/x", blocked_page, [])
          ∷ (page "https://example.org/y", blocked_page, [])
          ∷ [])
        (object end))
      tasks).opened
    ≡ true
unfolding is_counted circuit_code blocks get_member circuit_of circuit_key
apply_breaker_lem_example =
    (apply_breaker_lem (λ url. "example.org")
        ((page "https://example.org/x", blocked_page, [])
          ∷ (page "https://example.org/y", blocked_page, [])
          ∷ [])
        (object end) (page "https://example.org/a") blocked_page tasks refl refl).0.1
      (omega arith)

-- A page that links to itself is queued again while it is fetched, since its key is visited only
-- after that. With a budget of one page nothing is left to do then, and still the budget counts as
-- exhausted, so that the collection ends as partial.
abbrev one_page : CollectionRecord
one_page = record start {
  request = record start.request {
    constraints = record start.request.constraints { max_pages = 1 };
  };
}

abbrev self_link : SourceResult
self_link = record found_page { discovered_tasks = page "https://example.org/a" ∷ [] }

abbrev after_self_link : Progress
after_self_link =
    succeed settings no_research (page "https://example.org/a") self_link 0 0 0 (begin one_page [])

self_link_done : fresh after_self_link.visited after_self_link.pending ≡ []
unfolding succeed begin dedupe_key set_member expand_historical
self_link_done = refl

self_link_partial :
    (settled settings 0 9 false self_link.observations after_self_link).status ≡ partial
unfolding succeed begin dedupe_key set_member expand_historical settled
self_link_partial = refl

-- A search for two intents with a budget of three queries
abbrev asked : ℕ → Ask StorageError
asked i = record {
  cancelled_here = false;
  plan = λ r. ok (record { queries = "q1" ∷ "q2" ∷ []; tasks = []; notes = [] });
  discover =
      λ qs r. ok (record { tasks = []; errors = []; blocked = false; providers_attempted = [] });
  updated_at = i;
}

discover_uncovered_intents-bound_example :
    Returns
      (λ d. length d.queries ≤ 3)
      (discover_uncovered_intents
        (worker_repository code_point_le fence)
        3
        0
        asked
        start
        []
        ("reviews" ∷ "history" ∷ [])
        (record session { calls = calls 9 }))
unfolding set_member get_member as_texts
discover_uncovered_intents-bound_example =
    discover_uncovered_intents-bound (worker_repository code_point_le fence) 3 0 asked start []
      ("reviews" ∷ "history" ∷ []) (record session { calls = calls 9 })

-- The API cancels a collection that a worker has a lease on.
cancel_cases_example :
    (cancel (api_repository code_point_le) 7 "c-1" leased).0
    ≡ ok (some (cancelled_at 7 (collection "c-1" running 10)))
unfolding find is_finished
cancel_cases_example =
    ((cancel_cases code_point_le 7 "c-1" leased (stored (collection "c-1" running 10))
        (refl, (refl, tt)) refl (record { same_id = refl; same_status = refl }) (refl, tt)).1
      refl).0

-- A run of the worker from the start: the plan has one page, and the run ends with it.
abbrev surroundings : Surroundings StorageError
surroundings = record {
  now = 0;
  plan = ok (record { queries = []; tasks = page "https://example.org/a" ∷ []; notes = [] });
  cancelled_planned = false;
  cancelled_offered = false;
  cancelled_searched = false;
  cancelled_prepared = false;
  cancelled_at_end = false;
  adapters = [];
  max_queries = none;
  asks = asked;
  turns = at 0 (extracted (record found_page { discovered_tasks = [] }) []) ∷ [];
}

abbrev exceptions : Exceptions StorageError
exceptions = record {
  is_cancellation = λ e. false;
  message = λ e. "storage";
  bad_checkpoint = driver operational;
}

abbrev new_session : Session
new_session = record {
  db = record leased {
    collections = stored (record (collection "c-1" running 10) { checkpoint = object end }) ∷ [];
  };
  calls = calls 20;
}

run-Finishes_example :
    Closed
      (worker_repository code_point_le fence)
      (run
        (worker_repository code_point_le fence)
        settings
        exceptions
        surroundings
        "c-1"
        new_session).1
unfolding process worker_repository begin set_member fenced_get_collection current_lease_fence find
    is_cancelled commit_task_success succeed expand_historical has_lease owns_live count_where
    dedupe_key update_where overwrite run get_member fenced_update_collection accepts_update
    load_tasks is_set resumed initial_tasks merge_tasks list_observations settled
run-Finishes_example =
    run-Finishes (worker_repository code_point_le fence) settings exceptions surroundings "c-1"
      new_session
