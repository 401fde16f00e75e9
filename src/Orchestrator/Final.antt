-- ===== src/Orchestrator/Final.antt =====
-- orchestrator/atomic.py: the end of a collection, when the loop has been left.
pub mod Status
use argus_web_intelligence.Prelude.{
  ℕ, suc, ◌*◌, min, ltb, leb, length, any, keep, String, Bool, true, false, ◌&&◌, ◌||◌, not, List,
  [], ◌∷◌, ◌++◌, Option, none, some, String_eq, ◌==◌, if◌then◌else◌, is_some,
}
use argus_web_intelligence.Prelude.Text.{is_blank, ends_with}
use argus_web_intelligence.Prelude.Format.{concat, decimal}
use argus_web_intelligence.Prelude.Action.{
  Action, Result, ok, err, ◌>>=◌, ◌>>◌, pure, raise, continue,
}
use argus_web_intelligence.Prelude.Order.{order_by}
use argus_web_intelligence.Prelude.Collation.{code_point_le}
use argus_web_intelligence.Prelude.Sets.{elem, set_of}
use argus_web_intelligence.Contracts.{
  CollectionRecord, CollectionStatus, completed, partial, blocked, failed, SourceCoverage,
  StructuredError, Observation, is_cancelled, second,
}
use argus_web_intelligence.Contracts.Values.{
  Json, null, bool, natural, number, text, object, end, texts, as_texts, get_member, set_member,
}
use argus_web_intelligence.Orchestrator.{SourceTask, SourceResult, dedupe_key, Repository, Progress}
use argus_web_intelligence.Orchestrator.Tasks.{task_dicts}
use argus_web_intelligence.Orchestrator.Turn.{
  Reply, extracted, skipped, timed_out, cancelled_by, source_error, Turn, Settings, Failure,
  succeed, fail, skip_failure, timeout_failure, source_failure, remaining,
}

-- service.py, _blocking_error
unfoldable pub blocking_error : StructuredError → Bool
unfolding ends_with
blocking_error e = ends_with "_BLOCKED" e.code || e.code == "DISCOVERY_BLOCKED"

-- `item.blocked and item.error_code`, for the code given
blocks_with : String → SourceCoverage → Bool
blocks_with code c =
    c.blocked && elim c.error_code [ none ↦ false | some k ↦ not (k == "") && k == code ]

-- AtomicCollectionOrchestrator._terminal_source_errors
unfoldable pub terminal_source_errors : CollectionRecord → List StructuredError
unfolding blocks_with blocking_error
terminal_source_errors r =
    keep
      (λ (e : StructuredError).
        not (blocking_error e)
        && not (any (blocks_with e.code) r.coverage)
        && not (e.code == "DISCOVERY_NO_QUERIES"))
      r.errors

-- AtomicCollectionOrchestrator._append_budget_error
unfoldable pub append_budget_error : String → String → CollectionRecord → CollectionRecord
append_budget_error code message r =
    if any (λ (e : StructuredError). e.code == code) r.errors then r else record r {
      errors =
          r.errors
          ++ record {
            code = code;
            message = message;
            retryable = false;
            source_id = some "research_budget";
          }
            ∷ [];
    }

-- `bool(xs)`
abbrev pub is_full : {A : Type 0} → List A → Bool
is_full [] = false
is_full (x ∷ xs) = true

-- The status and the flag `partial` at the end of the loop, from whether there are observations, a
-- blocked source, a partial one, other errors, and whether a budget has run out.
unfoldable pub final_status :
    (allow_partial found blocked_source partial_source source_errors exhausted : Bool)
    → CollectionStatus
final_status allow_partial found blocked_source partial_source source_errors exhausted =
    if found && (blocked_source || partial_source || source_errors || exhausted)
    then (if allow_partial then partial else failed)
    else if not found && blocked_source && not source_errors
    then blocked
    else if not found && (partial_source || source_errors || exhausted)
    then failed
    else completed

is_partial : CollectionStatus → Bool
is_partial partial = true
is_partial _ = false

-- `CollectionStatus.value`
unfoldable pub status_value : CollectionStatus → String
status_value CollectionStatus.queued = "queued"
status_value CollectionStatus.running = "running"
status_value completed = "completed"
status_value partial = "partial"
status_value blocked = "blocked"
status_value failed = "failed"
status_value CollectionStatus.cancelled = "cancelled"

unfoldable pub max_duration : CollectionRecord → ℕ
max_duration r = r.request.constraints.max_duration_seconds * second

-- The error for the budget that has run out, if one has.
unfoldable pub budgeted : Settings → Bool → Bool → CollectionRecord → CollectionRecord
unfolding append_budget_error concat decimal max_duration
budgeted settings time_exhausted pages_exhausted r =
    if time_exhausted
    then append_budget_error "TIME_BUDGET_EXHAUSTED"
        (concat (
          "Collection stopped after reaching max_duration_seconds="
          ∷ settings.general (max_duration r)
          ∷ "."
          ∷ []))
        r
    else if pages_exhausted
    then append_budget_error "PAGE_BUDGET_EXHAUSTED"
        (concat (
          "Collection stopped after reaching max_pages="
          ∷ decimal r.request.constraints.max_pages
          ∷ "."
          ∷ []))
        r
    else r

execution_budget : Settings → ℕ → Bool → Bool → Progress → Json
unfolding set_member max_duration
execution_budget settings started_at time_exhausted pages_exhausted p =
    set_member "pending_tasks" (natural (length p.pending)) (
      set_member "time_budget_exhausted" (bool time_exhausted) (
        set_member "page_budget_exhausted" (bool pages_exhausted) (
          set_member "processed_pages" (natural p.processed) (
            set_member "source_task_timeout_seconds"
              (number (settings.literal settings.source_task_timeout))
              (set_member "max_duration_seconds"
                (number (settings.literal (max_duration p.collection)))
                (set_member "max_pages" (natural p.collection.request.constraints.max_pages) (
                  set_member "started_at" (text (settings.isoformat started_at))
                    (set_member "version" (text "time-and-page-budget/1") (object end)))))))))

pages_out : Progress → Bool
pages_out p = is_full p.pending && leb p.collection.request.constraints.max_pages p.processed

-- The end of `_process_tasks`: the record that is written when the loop has been left.
unfoldable pub settled : Settings → ℕ → ℕ → Bool → List Observation → Progress → CollectionRecord
unfolding pages_out budgeted final_status terminal_source_errors is_partial status_value
    execution_budget set_member texts task_dicts
settled settings started_at updated_at time_exhausted observations p =
    let c = p.collection in
    let exhausted = time_exhausted || pages_out p in
    let status =
      final_status c.request.allow_partial (is_full observations)
        (any (λ (i : SourceCoverage). i.blocked) c.coverage)
        (any (λ (i : SourceCoverage). i.status == "partial") c.coverage)
        (is_full (terminal_source_errors c) || exhausted) exhausted in
    record (budgeted settings time_exhausted (pages_out p) c) {
      status = status;
      partial = is_partial status;
      progress_percent = 100;
      stage = some (status_value status);
      updated_at = updated_at;
      checkpoint =
          set_member "execution_budget"
            (execution_budget settings started_at time_exhausted (pages_out p) p)
            (set_member "pending_tasks" (task_dicts p.pending) (
              set_member "historical_branch_queries"
                (texts (order_by code_point_le p.historical_branch_queries)) c.checkpoint));
    }
