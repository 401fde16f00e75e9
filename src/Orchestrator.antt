-- ===== src/Orchestrator.antt =====
-- orchestrator/service.py and orchestrator/atomic.py: a worker runs the tasks of a collection, one
-- after the other, and keeps a checkpoint of what is done and what is still queued. The sources, the
-- research services, the clock and the repository are the environment.
pub mod Tasks
pub mod Percent
pub mod Breaker
pub mod Branch
pub mod Turn
pub mod Final
pub mod Process
pub mod Postgres
pub mod Planning
pub mod Lifecycle
pub mod Run
mod Examples
use argus_web_intelligence.Prelude.{
  ℕ, String, Bool, List, ◌∷◌, [], map, Option, none, some, String_eq, ◌==◌, if◌then◌else◌,
}
use argus_web_intelligence.Prelude.Action.{Action, Result}
use argus_web_intelligence.Prelude.Format.{concat}
use argus_web_intelligence.Contracts.{
  CollectionRecord, CollectionRequest, Observation, Evidence, Snapshot, StructuredError,
}
use argus_web_intelligence.Contracts.Values.{Json}

-- sources/base.py
pub record SourceTask : Type 0 where
  pub source_id : String
  pub goal : String
  pub url : String
  pub depth : ℕ
  pub metadata : Json
  pub task_key : Option String

-- `f"{self.source_id}:{self.url}"`
unfoldable pub url_key : SourceTask → String
unfolding concat
url_key t = concat (t.source_id ∷ ":" ∷ t.url ∷ [])

-- SourceTask.dedupe_key
unfoldable pub dedupe_key : SourceTask → String
unfolding url_key
dedupe_key t = elim t.task_key [ none ↦ url_key t | some k ↦ if k == "" then url_key t else k ]

abbrev pub keys : List SourceTask → List String
keys = map dedupe_key

pub record SourceResult : Type 0 where
  pub observations : List Observation
  pub evidence : List Evidence
  pub discovered_tasks : List SourceTask
  pub blocked : Bool
  pub partial : Bool
  pub errors : List StructuredError

-- research/discovery.py, less the statistics
pub record DiscoveryOutcome : Type 0 where
  pub tasks : List SourceTask
  pub errors : List StructuredError
  pub blocked : Bool
  pub providers_attempted : List String

-- What the orchestrator calls of the repository, over its state `S`.
pub record Repository (S E : Type 0) : Type 0 where
  pub get_collection : String → Action S E (Option CollectionRecord)
  pub update_collection : CollectionRecord → Action S E (Unit {0})
  pub commit_task_success :
      CollectionRecord → List Observation → List Evidence → List Snapshot → Action S E (Unit {0})
  pub list_observations : String → Action S E (List Observation)

-- What HistoricalBranchPlanner.expand and DiscoveryService.discover answer in a turn; an error is
-- the message of an exception.
pub record Research : Type 0 where
  pub configured : Bool
  pub expand : CollectionRequest → List Observation → List String → Result String (List String)
  pub discover : List String → CollectionRequest → Result String DiscoveryOutcome

-- The local variables of `_process_tasks`.
pub record Progress : Type 0 where
  pub collection : CollectionRecord
  pub pending : List SourceTask
  pub visited : List String
  pub historical_branch_queries : List String
  pub processed : ℕ
