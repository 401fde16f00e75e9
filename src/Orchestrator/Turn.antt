-- ===== src/Orchestrator/Turn.antt =====
-- orchestrator/atomic.py: what one task leaves, by the way its fetch ended. The clock and the
-- outcome are the environment's.
use argus_web_intelligence.Prelude.{
  ℕ, suc, ◌-◌, min, max, leb, length, String, Bool, true, false, ◌&&◌, ◌||◌, List, [], ◌∷◌, ◌++◌,
  Option, none, some, String_eq, ◌==◌, if◌then◌else◌, is_some,
}
use argus_web_intelligence.Prelude.Format.{concat}
use argus_web_intelligence.Prelude.Order.{order_by}
use argus_web_intelligence.Prelude.Collation.{code_point_le}
use argus_web_intelligence.Prelude.Sets.{elem, add}
use argus_web_intelligence.Contracts.{CollectionRecord, SourceCoverage, StructuredError, Snapshot}
use argus_web_intelligence.Contracts.Values.{Json, set_member, texts}
use argus_web_intelligence.Orchestrator.{
  SourceTask, dedupe_key, keys, SourceResult, Research, Progress,
}
use argus_web_intelligence.Orchestrator.Tasks.{task_dicts, owned_by}
use argus_web_intelligence.Orchestrator.Percent.{percent}
use argus_web_intelligence.Orchestrator.Breaker.{apply_breaker, Circuit}
use argus_web_intelligence.Orchestrator.Branch.{expand_historical}

-- How `fetch`, `extract` and `normalize` end, under the time-out of the task. A message of an
-- exception is the one that safe_error_message makes of it.
pub data Reply (E : Type 0) : Type 0 where
  extracted : SourceResult → List Snapshot → Reply E
  skipped : (reason : String) → Reply E
  timed_out : Reply E
  cancelled_by : E → Reply E
  source_error : (message : String) → Reply E

-- One turn of the loop, as the environment makes it: whether the collection was cancelled in this
-- process, the clock where it is read, the exception of the look-up of the source, the reply.
pub record Turn (E : Type 0) : Type 0 where
  pub cancelled_here : Bool
  pub now : ℕ
  pub started_at : ℕ
  pub finished_at : ℕ
  pub updated_at : ℕ
  pub denied : Option E
  pub reply : Reply E
  pub research : Research

-- What the orchestrator is built with, and the formats of the standard library: `f"{x:g}"` and
-- `repr` of a number of seconds (here in microseconds), `isoformat` of a time, and
-- `fromisoformat`, for a text with a time zone only.
pub record Settings : Type 0 where
  pub source_task_timeout : ℕ
  pub host_of : String → String
  pub general : ℕ → String
  pub literal : ℕ → String
  pub isoformat : ℕ → String
  pub fromisoformat : String → Option ℕ

abbrev pub opening : SourceTask → ℕ → SourceCoverage
opening task started_at = record {
  source_id = task.source_id;
  status = "running";
  requested = true;
  observations = 0;
  blocked = false;
  error_code = none;
  error_message = none;
  started_at = some started_at;
  finished_at = none;
}

result_status : SourceResult → String
result_status r =
    if r.blocked
    then "blocked"
    else if r.partial
    then "partial"
    else if leb 1 (length r.errors) && leb (length r.observations) 0
    then "error"
    else "ok"

-- `coverage.error_code = result.errors[0].code`, and its message
first_error : List StructuredError → SourceCoverage → SourceCoverage
first_error [] c = c
first_error (e ∷ es) c = record c { error_code = some e.code; error_message = some e.message }

unfoldable pub covered : SourceResult → SourceCoverage → SourceCoverage
unfolding result_status first_error
covered r c = record (first_error r.errors c) {
  observations = length r.observations;
  blocked = r.blocked;
  status = result_status r;
}

-- The loop over `result.discovered_tasks`
unfoldable pub queue_children :
    String → List String → List SourceTask → List SourceTask → List SourceTask
unfolding owned_by
queue_children id visited [] pending = pending
queue_children id visited (child ∷ children) pending =
    let key = dedupe_key (owned_by id child) in
    if elem key visited || elem key (keys pending)
    then queue_children id visited children pending
    else queue_children id visited children (pending ++ owned_by id child ∷ [])

-- The members of the checkpoint that the loop keeps.
unfoldable pub checkpoint_of : List String → List String → List SourceTask → Json → Json
unfolding set_member texts
checkpoint_of visited queries pending checkpoint = set_member "pending_tasks" (task_dicts pending) (
    set_member "historical_branch_queries" (texts (order_by code_point_le queries))
      (set_member "visited" (texts (order_by code_point_le visited)) checkpoint))

-- `min(99, int(processed / max(1, total_budget) * 100))`
unfoldable pub progress_of : ℕ → ℕ → ℕ
progress_of processed budget = min 99 (percent processed (max 1 budget))

-- The end of a task that went through: its coverage, its key and the checkpoint.
unfoldable pub conclude : SourceTask → ℕ → ℕ → SourceCoverage → Progress → Progress
unfolding checkpoint_of progress_of
conclude task finished_at updated_at coverage p =
    let visited = add (dedupe_key task) p.visited in
    let c = p.collection in
    record p {
      collection = record c {
        coverage = c.coverage ++ record coverage { finished_at = some finished_at } ∷ [];
        progress_percent = progress_of (suc p.processed) c.request.constraints.max_pages;
        stage = some (concat ("collecting:" ∷ task.source_id ∷ []));
        updated_at = updated_at;
        checkpoint = checkpoint_of visited p.historical_branch_queries p.pending c.checkpoint;
      };
      visited = visited;
      processed = suc p.processed;
    }

unfoldable pub append_error : StructuredError → CollectionRecord → CollectionRecord
append_error e c = record c { errors = c.errors ++ e ∷ [] }

abbrev branch_error_code : String
branch_error_code = "HISTORICAL_BRANCH_ERROR"

-- The coverage of a task whose branch failed.
branch_failed : String → SourceCoverage → SourceCoverage
branch_failed message c =
    let degraded = record c { status = if c.status == "ok" then "partial" else c.status } in
    if is_some c.error_code
    then degraded
    else record degraded { error_code = some branch_error_code; error_message = some message }

unfoldable pub after_branch :
    SourceTask → SourceCoverage → Progress × Option String → Progress × SourceCoverage
unfolding append_error branch_failed
after_branch task c (p, none) = (p, c)
after_branch task c (p, some message) =
    let e : StructuredError = record {
      code = branch_error_code;
      message = message;
      retryable = true;
      source_id = some task.source_id;
    } in
    (record p { collection = append_error e p.collection }, branch_failed message c)

-- The research of history, unless the circuit of the source has opened.
unfoldable pub branch :
    Bool
    → Research
    → SourceTask
    → SourceResult
    → SourceCoverage
    → Progress
    → Progress × SourceCoverage
unfolding after_branch
branch true research task r c p = (p, c)
branch false research task r c p =
    after_branch task c (expand_historical research task r.observations p)

-- The circuit breaker, for a blocked result only.
unfoldable pub broken :
    Settings → SourceTask → SourceCoverage → Bool → Json → List SourceTask → Circuit
unfolding apply_breaker
broken settings task c false checkpoint pending = record {
  checkpoint = checkpoint;
  pending = pending;
  opened = false;
}
broken settings task c true checkpoint pending =
    apply_breaker settings.host_of task c checkpoint pending

-- The working copies after a result, before its coverage is closed
unfoldable pub worked :
    Settings → Research → SourceTask → SourceResult → ℕ → Progress → Progress × SourceCoverage
unfolding covered broken queue_children branch
worked settings research task r started_at p =
    let c = p.collection in
    let coverage = covered r (opening task started_at) in
    let circuit = broken settings task coverage r.blocked c.checkpoint p.pending in
    branch circuit.opened research task r coverage (record p {
      collection = record c { errors = c.errors ++ r.errors; checkpoint = circuit.checkpoint };
      pending = queue_children c.collection_id p.visited r.discovered_tasks circuit.pending;
    })

-- `working_record`, `working_pending` and so on, as they are committed
unfoldable pub succeed :
    Settings → Research → SourceTask → SourceResult → ℕ → ℕ → ℕ → Progress → Progress
unfolding worked conclude
succeed settings research task r started_at finished_at updated_at p =
    let w = worked settings research task r started_at p in
    conclude task finished_at updated_at w.1 w.0

-- The arguments of `_record_task_failure` that say what happened.
pub record Failure : Type 0 where
  pub error_code : String
  pub message : String
  pub retryable : Bool
  pub blocked : Bool

-- The error and the coverage of a task that failed
unfoldable pub blame : SourceTask → Failure → ℕ → Progress → Progress × SourceCoverage
unfolding append_error
blame task f started_at p =
    let e : StructuredError = record {
      code = f.error_code;
      message = f.message;
      retryable = f.retryable;
      source_id = some task.source_id;
    } in
    (
      record p { collection = append_error e p.collection },
      record (opening task started_at) {
        status = if f.blocked then "blocked" else "error";
        blocked = f.blocked;
        error_code = some f.error_code;
        error_message = some f.message;
      },
    )

-- AtomicCollectionOrchestrator._record_task_failure, up to the write, and the two statements after
-- its calls
unfoldable pub fail : SourceTask → Failure → ℕ → ℕ → ℕ → Progress → Progress
unfolding blame conclude
fail task f started_at finished_at updated_at p =
    let w = blame task f started_at p in conclude task finished_at updated_at w.1 w.0

-- `except CrawlerRequestSkippedError`
unfoldable pub skip_failure : String → Failure
unfolding concat
skip_failure reason =
    if reason == "robots_txt"
    then record {
      error_code = "SOURCE_ROBOTS_TXT_BLOCKED";
      message = "Source URL is disallowed by robots.txt; ARGUS did not fetch or bypass it.";
      retryable = false;
      blocked = true;
    }
    else record {
      error_code = "SOURCE_REQUEST_SKIPPED";
      message =
          concat ("Crawler skipped the source request before navigation (" ∷ reason ∷ ")." ∷ []);
      retryable = true;
      blocked = false;
    }

-- `except TimeoutError`
unfoldable pub timeout_failure : Settings → Failure
unfolding concat
timeout_failure settings = record {
  error_code = "SOURCE_TASK_TIMEOUT";
  message = concat (
      "Source task exceeded the bounded execution timeout of "
      ∷ settings.general settings.source_task_timeout
      ∷ " seconds."
      ∷ []);
  retryable = true;
  blocked = false;
}

-- `except Exception`
unfoldable pub source_failure : String → Failure
source_failure message = record {
  error_code = "SOURCE_ERROR";
  message = message;
  retryable = true;
  blocked = false;
}

-- AtomicCollectionOrchestrator._remaining_execution_seconds: both differences stop at 0
unfoldable pub remaining : ℕ → ℕ → ℕ → ℕ
remaining now started_at max_duration = max_duration - (now - started_at)
