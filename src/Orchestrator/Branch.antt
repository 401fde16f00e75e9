-- ===== src/Orchestrator/Branch.antt =====
-- orchestrator/service.py: after a task has found something, the research of its history may queue
-- further tasks.
use argus_web_intelligence.Prelude.{
  ℕ, suc, leb, String, Bool, true, false, not, ◌||◌, List, [], ◌∷◌, ◌++◌, map, keep, Option, none,
  some, String_eq, ◌==◌, if◌then◌else◌,
}
use argus_web_intelligence.Prelude.Action.{Result, ok, err}
use argus_web_intelligence.Prelude.Sets.{elem, add_all}
use argus_web_intelligence.Contracts.{Observation, StructuredError}
use argus_web_intelligence.Contracts.Values.{natural, text, get_member, set_member, texts}
use argus_web_intelligence.Orchestrator.{
  SourceTask, dedupe_key, DiscoveryOutcome, Research, Progress,
}
use argus_web_intelligence.Orchestrator.Tasks.{merge_tasks}

-- `max(0, int(raw_depth))`, for the depths that this method writes itself
branch_depth : SourceTask → ℕ
unfolding get_member
branch_depth t = elim (get_member "historical_branch_depth" t.metadata) [
  | some (natural n) ↦ n
  | _ ↦ 0
]

is_empty : {A : Type 0} → List A → Bool
is_empty [] = true
is_empty (x ∷ xs) = false

-- The metadata of a task that the branch of `parent` found.
branched : SourceTask → List String → SourceTask → SourceTask
unfolding branch_depth set_member texts
branched parent queries t = record t {
  metadata = set_member "historical_branch_queries" (texts queries) (
      set_member "historical_branch_from" (text parent.url)
        (set_member "historical_branch_depth" (natural (suc (branch_depth parent))) t.metadata));
}

-- `for error in outcome.errors: if error.code != "DISCOVERY_NO_RESULTS"`
branch_errors : List StructuredError → List StructuredError
branch_errors = keep (λ (e : StructuredError). not (e.code == "DISCOVERY_NO_RESULTS"))

unfoldable pub after_discovery :
    SourceTask → List String → Result String DiscoveryOutcome → Progress → Progress × Option String
unfolding branched branch_errors
after_discovery task queries (err message) p = (p, some message)
after_discovery task queries (ok outcome) p =
    let additions =
      map (branched task queries) (keep (λ t. not (elem (dedupe_key t) p.visited)) outcome.tasks) in
    let c = record p.collection { errors = p.collection.errors ++ branch_errors outcome.errors } in
    (record p { collection = c; pending = merge_tasks c.collection_id p.pending additions }, none)

unfoldable pub after_planning :
    Research → SourceTask → Result String (List String) → Progress → Progress × Option String
unfolding after_discovery
after_planning research task (err message) p = (p, some message)
after_planning research task (ok []) p = (p, none)
after_planning research task (ok (q ∷ qs)) p =
    let queries = q ∷ qs in
    let request = record p.collection.request { intents = "historical_context" ∷ [] } in
    after_discovery task queries (research.discover queries request)
      (record p { historical_branch_queries = add_all queries p.historical_branch_queries })

-- The tests for the early returns of the method.
unfoldable pub returns_early : Research → SourceTask → List Observation → Progress → Bool
unfolding is_empty branch_depth
returns_early research task observations p =
    let request = p.collection.request in
    not research.configured
    || not (elem "historical_context" request.intents)
    || is_empty observations
    || leb request.constraints.max_depth (branch_depth task)

-- CollectionOrchestrator._expand_historical, and the message of the exception that leaves it
unfoldable pub expand_historical :
    Research → SourceTask → List Observation → Progress → Progress × Option String
unfolding after_planning returns_early
expand_historical research task observations p =
    if returns_early research task observations p
    then (p, none)
    else after_planning research task
        (research.expand p.collection.request observations p.historical_branch_queries) p
