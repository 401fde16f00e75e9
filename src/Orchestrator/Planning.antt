-- ===== src/Orchestrator/Planning.antt =====
-- orchestrator/service.py: the tasks that the sources offer for a request, and the search for pages
-- for the intents that no source covers. Planner, sources and search are the environment.
pub mod Budget
use argus_web_intelligence.Prelude.{
  ℕ, suc, ◌+◌, ◌-◌, max, leb, take, length, keep, any, String, Bool, true, false, ◌&&◌, ◌||◌, not,
  List, [], ◌∷◌, ◌++◌, map, Option, none, some, String_eq, ◌==◌, if◌then◌else◌,
}
use Prim.Native.Nat.{◌/◌}
use argus_web_intelligence.Prelude.Text.{is_blank, strip}
use argus_web_intelligence.Prelude.Format.{concat}
use argus_web_intelligence.Prelude.Action.{
  Action, Result, ok, err, ◌>>=◌, ◌>>◌, pure, raise, continue,
}
use argus_web_intelligence.Prelude.Order.{order_by}
use argus_web_intelligence.Prelude.Collation.{code_point_le}
use argus_web_intelligence.Prelude.Sets.{elem, add, add_all, set_of}
use argus_web_intelligence.Contracts.{CollectionRecord, CollectionRequest, StructuredError}
use argus_web_intelligence.Contracts.Values.{
  Json, bool, array, get_member, set_member, texts, as_texts, elements,
}
use argus_web_intelligence.Orchestrator.{SourceTask, dedupe_key, Repository, DiscoveryOutcome}
use argus_web_intelligence.Orchestrator.Tasks.{merge_tasks, task_dicts, owned_by, collect}
use argus_web_intelligence.Orchestrator.Process.{is_cancelled_now}
use argus_web_intelligence.Orchestrator.Final.{is_full}

-- research/planner.py
pub record ResearchPlan : Type 0 where
  pub queries : List String
  pub tasks : List SourceTask
  pub notes : List String

-- A source that is registered for the intents of a request: the intents that it serves, and what its
-- `discover` answers.
pub record Adapter (E : Type 0) : Type 0 where
  pub intents : List String
  pub discover : CollectionRequest → Result E (List SourceTask)

-- The loop over the discovered tasks of one source, and the keys seen so far
unfoldable pub offer :
    String → List SourceTask → List SourceTask × List String → List SourceTask × List String
unfolding owned_by
offer id [] (tasks, seen) = (tasks, seen)
offer id (t ∷ ts) (tasks, seen) =
    let task = owned_by id t in
    let key = dedupe_key task in
    if elem key seen
    then offer id ts (tasks, seen)
    else offer id ts (tasks ++ task ∷ [], key ∷ seen)

-- `requested_intents & adapter.intents`, for a source that offers something and not everything
unfoldable pub covers : {E : Type 0} → CollectionRequest → Adapter E → List SourceTask → List String
covers request adapter discovered =
    if is_full discovered && not (elem "*" adapter.intents)
    then keep (λ i. elem i adapter.intents) request.intents
    else []

-- CollectionOrchestrator._initial_tasks, over the sources of `registry.for_intents`
unfoldable pub initial_tasks :
    {E : Type 0}
    → CollectionRecord
    → List (Adapter E)
    → List SourceTask × List String
    → List String
    → Result E (List SourceTask × List String)
unfolding offer covers
initial_tasks r [] (tasks, seen) covered = ok (tasks, covered)
initial_tasks r (a ∷ adapters) found covered = elim (a.discover r.request) [
  | err e ↦ err e
  | ok discovered ↦
      initial_tasks r adapters (offer r.collection_id discovered found)
        (add_all (covers r.request a discovered) covered)
]

refuses_discovery : Option Json → Bool
refuses_discovery (some (bool false)) = true
refuses_discovery _ = false

goals_of : Option Json → List String
unfolding collect elements
goals_of (some (array vs)) = collect (elements vs) []
goals_of _ = []

-- CollectionOrchestrator._direct_no_discovery_tasks
unfoldable pub direct_tasks : List SourceTask → String → List SourceTask
unfolding refuses_discovery goals_of get_member
direct_tasks tasks intent =
    keep
      (λ t.
        refuses_discovery (get_member "external_discovery_allowed" t.metadata)
        && (t.goal == intent || elem intent (goals_of (get_member "research_goals" t.metadata))))
      tasks

-- CollectionOrchestrator._append_error_once
unfoldable pub append_error_once : StructuredError → CollectionRecord → CollectionRecord
append_error_once e r =
    if any (λ (c : StructuredError). c.code == e.code && same_source c.source_id e.source_id)
      r.errors
    then r
    else record r { errors = r.errors ++ e ∷ [] }
  where
    same_source : Option String → Option String → Bool
    same_source none none = true
    same_source (some a) (some b) = a == b
    same_source _ _ = false

-- The variables of `_discover_uncovered_intents`.
pub record Discovery : Type 0 where
  pub collection : CollectionRecord
  pub pending : List SourceTask
  pub queries : List String
  pub providers : List String
  pub blocked : Bool
  pub completed : List String
  pub remaining : ℕ

-- What the environment answers for one intent.
pub record Ask (E : Type 0) : Type 0 where
  pub cancelled_here : Bool
  pub plan : CollectionRequest → Result E ResearchPlan
  pub discover : List String → CollectionRequest → Result E DiscoveryOutcome
  pub updated_at : ℕ

-- `", ".join(texts)`
join : List String → String
join [] = ""
join (s ∷ []) = s
join (s ∷ t ∷ ss) = concat (s ∷ ", " ∷ join (t ∷ ss) ∷ [])

discovery_error : String → String → StructuredError
discovery_error code message = record {
  code = code;
  message = message;
  retryable = false;
  source_id = some "discovery";
}

-- `for provider in outcome.providers_attempted`
add_providers : List String → List String → List String
add_providers [] known = known
add_providers (p ∷ ps) known =
    if elem p known then add_providers ps known else add_providers ps (known ++ p ∷ [])

-- The record of CollectionOrchestrator._checkpoint_discovery_progress
unfoldable pub progressed : ℕ → Discovery → CollectionRecord
unfolding set_member texts task_dicts
progressed updated_at d = record d.collection {
  checkpoint = set_member "pending_tasks" (task_dicts d.pending) (
      set_member "discovery_completed_intents" (texts (order_by code_point_le d.completed)) (
        set_member "discovery_blocked" (bool d.blocked) (
          set_member "discovery_providers" (texts d.providers)
            (set_member "discovery_queries" (texts d.queries) d.collection.checkpoint))));
  updated_at = updated_at;
}

-- `[query for query in queries if query.strip()][:max(1, remaining // intents)]`
unfoldable pub allotted : ℕ → ℕ → List String → List String
allotted remaining intents queries =
    take (max 1 (remaining / intents)) (keep (λ q. not (is_blank q)) queries)

-- The variables after a search that has answered
unfoldable pub after_search : String → List String → DiscoveryOutcome → Discovery → Discovery
unfolding add_providers
after_search intent queries o d =
    let c = record d.collection { errors = d.collection.errors ++ o.errors } in
    record d {
      collection = c;
      queries = d.queries ++ queries;
      blocked = d.blocked || o.blocked;
      providers = add_providers o.providers_attempted d.providers;
      pending = merge_tasks c.collection_id d.pending o.tasks;
      completed = add intent d.completed;
      remaining = d.remaining - length queries;
    }

-- The variables when the planner has no query for an intent
unfoldable pub without_queries : String → Discovery → Discovery
unfolding append_error_once discovery_error concat
without_queries intent d = record d {
  collection =
      append_error_once
        (discovery_error "DISCOVERY_NO_QUERIES" (
          concat
            ("Research planner produced no discovery queries for intent '" ∷ intent ∷ "'." ∷ [])))
        d.collection;
  completed = add intent d.completed;
}

-- The variables when the budget is used up, with the intents that are left
unfoldable pub exhausted : List String → Discovery → Discovery
unfolding append_error_once discovery_error concat join
exhausted intents d = record d {
  collection =
      append_error_once
        (discovery_error "DISCOVERY_QUERY_BUDGET_EXHAUSTED" (
          concat (
            "Discovery query budget was exhausted before all uncovered intents could be researched: "
            ∷ join intents
            ∷ [])))
        d.collection;
}

-- Tasks that the plan names itself
unfoldable pub with_direct : String → List SourceTask → Discovery → Discovery
with_direct intent tasks d = record d {
  pending = merge_tasks d.collection.collection_id d.pending tasks;
  completed = add intent d.completed;
}

-- What `_discover_uncovered_intents` takes from the checkpoint
unfoldable pub discovery_start : ℕ → ℕ → CollectionRecord → List SourceTask → Discovery
unfolding as_texts get_member
discovery_start max_queries updated_at r pending =
    let queries = as_texts (get_member "discovery_queries" r.checkpoint) in
    record {
      collection = record r { stage = some "discovery"; updated_at = updated_at };
      pending = pending;
      queries = queries;
      providers = as_texts (get_member "discovery_providers" r.checkpoint);
      blocked = elim (get_member "discovery_blocked" r.checkpoint) [
        | some (bool b) ↦ b
        | _ ↦ false
      ];
      completed = set_of (as_texts (get_member "discovery_completed_intents" r.checkpoint));
      remaining = max 1 max_queries - length queries;
    }

-- The intents that earlier runs have not searched for
abbrev pub uncompleted : Discovery → List String → List String
uncompleted d uncovered = keep (λ i. not (elem i d.completed)) uncovered

module _ {S E : Type 0} (repository : Repository S E) where
  raised : {A : Type 0} → Result E A → Action S E A
  raised r s = (r, s)

  checkpoint : ℕ → Discovery → Action S E Discovery
  unfolding progressed
  checkpoint updated_at d =
      let r = progressed updated_at d in
      repository.update_collection r >> pure (record d { collection = r })

  search : Ask E → CollectionRequest → String → List String → Discovery → Action S E Discovery
  unfolding raised checkpoint after_search without_queries
  search a request intent [] d = checkpoint a.updated_at (without_queries intent d)
  search a request intent (q ∷ qs) d = raised (a.discover (q ∷ qs) request) >>= λ o.
      checkpoint a.updated_at (after_search intent (q ∷ qs) o d)

  research :
      Ask E
      → CollectionRequest
      → String
      → ℕ
      → ResearchPlan
      → List SourceTask
      → Discovery
      → Action S E Discovery
  unfolding search checkpoint with_direct allotted
  research a request intent intents plan (t ∷ ts) d =
      checkpoint a.updated_at (with_direct intent (t ∷ ts) d)
  research a request intent intents plan [] d =
      search a request intent (allotted d.remaining intents plan.queries) d

  -- One intent, with the number of those that are left
  unfoldable pub ask : Ask E → String → ℕ → Discovery → Action S E Discovery
  unfolding research raised direct_tasks
  ask a intent intents d =
      let request = record d.collection.request { intents = intent ∷ [] } in
      raised (a.plan request) >>= λ plan.
      research a request intent intents plan (direct_tasks plan.tasks intent) d

  -- The loop over the intents
  unfoldable pub ask_each : (ℕ → Ask E) → List String → Discovery → Action S E Discovery
  unfolding ask checkpoint exhausted is_cancelled_now
  ask_each asks [] d = pure d
  ask_each asks (intent ∷ intents) d =
      is_cancelled_now repository (asks 0).cancelled_here d.collection.collection_id >>= λ stop.
      if stop
      then pure d
      else if leb d.remaining 0
      then checkpoint (asks 0).updated_at (exhausted (intent ∷ intents) d)
      else (ask (asks 0) intent (suc (length intents)) d >>= λ d'.
          ask_each (λ i. asks (suc i)) intents d')

  -- CollectionOrchestrator._discover_uncovered_intents, for a discovery service with `max_queries`
  unfoldable pub discover_uncovered_intents :
      ℕ → ℕ → (ℕ → Ask E) → CollectionRecord → List SourceTask → List String → Action S E Discovery
  unfolding ask_each discovery_start
  discover_uncovered_intents max_queries updated_at asks r pending uncovered =
      let d = discovery_start max_queries updated_at r pending in
      repository.update_collection d.collection >> ask_each asks (uncompleted d uncovered) d
