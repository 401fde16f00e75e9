-- ===== src/Contracts.antt =====
-- The data that the parts of the service exchange: contracts/models.py, recipes/models.py.
-- A time is a number of microseconds since a fixed epoch, a duration a number of microseconds, a
-- coordinate a signed number of 10⁻⁷ degrees.
pub mod Values
use argus_web_intelligence.Prelude.{ℕ, ◌*◌, String, Bool, true, false, List, Option, ◌||◌, not}
use Values.{Json}

-- contracts/models.py, CollectionStatus
pub data CollectionStatus : Type 0 where
  queued running completed partial blocked failed cancelled : CollectionStatus

-- `status IN ('queued', 'running')`
unfoldable pub is_active : CollectionStatus → Bool
is_active queued = true
is_active running = true
is_active _ = false

-- `status IN ('completed', 'partial', 'blocked', 'failed', 'cancelled')`
unfoldable pub is_finished : CollectionStatus → Bool
is_finished queued = false
is_finished running = false
is_finished _ = true

-- `status = 'cancelled'`
unfoldable pub is_cancelled : CollectionStatus → Bool
is_cancelled cancelled = true
is_cancelled _ = false

abbrev pub second : ℕ
second = 1_000_000

abbrev pub day : ℕ
day = 86_400 * second

pub data Coordinate : Type 0 where
  pos negsuc : ℕ → Coordinate

pub record Point : Type 0 where
  pub latitude : Coordinate
  pub longitude : Coordinate

pub record TerritoryContext : Type 0 where
  pub city : Option String
  pub address : Option String
  pub point : Option Point
  pub radius_meters : Option ℕ
  pub geometry : Option Json
  pub metadata : Json

pub record CollectionConstraints : Type 0 where
  pub max_pages : ℕ
  pub max_depth : ℕ
  pub max_duration_seconds : ℕ
  pub allowed_domains : List String
  pub denied_domains : List String
  pub seed_urls : List String
  pub source_pool_urls : List String
  pub language : Option String
  pub output_language : String

pub record CollectionRequest : Type 0 where
  pub protocol_version : String
  pub consumer : String
  pub consumer_profile_version : Option ℕ
  pub capability : Option String
  pub requested_facts : List String
  pub research_profile : Option String
  pub research_profile_version : Option ℕ
  pub tool_pack_id : Option String
  pub tool_pack_version : Option ℕ
  pub analysis_id : String
  pub idempotency_key : Option String
  pub territory : TerritoryContext
  pub intents : List String
  pub constraints : CollectionConstraints
  pub allow_partial : Bool

pub record SourceCoverage : Type 0 where
  pub source_id : String
  pub status : String
  pub requested : Bool
  pub observations : ℕ
  pub blocked : Bool
  pub error_code : Option String
  pub error_message : Option String
  pub started_at : Option ℕ
  pub finished_at : Option ℕ

pub record StructuredError : Type 0 where
  pub code : String
  pub message : String
  pub retryable : Bool
  pub source_id : Option String

pub record CollectionRecord : Type 0 where
  pub collection_id : String
  pub request : CollectionRequest
  pub status : CollectionStatus
  pub created_at : ℕ
  pub updated_at : ℕ
  pub progress_percent : ℕ
  pub stage : Option String
  pub partial : Bool
  pub coverage : List SourceCoverage
  pub errors : List StructuredError
  pub checkpoint : Json

pub record EvidenceSource : Type 0 where
  pub provider : String
  pub url : String
  pub collected_at : ℕ
  pub source_id : Option String

pub record Evidence : Type 0 where
  pub evidence_id : String
  pub observation_id : Option String
  pub type : String
  pub text : String
  pub source : EvidenceSource
  pub metadata : Json

pub record Observation : Type 0 where
  pub observation_id : String
  pub collection_id : String
  pub analysis_id : String
  pub consumer : String
  pub source : String
  pub source_kind : String
  pub url : String
  pub entity_type : String
  pub entity_id : Option String
  pub title : Option String
  pub text : Option String
  pub details : Json
  pub geo : Option Point
  pub published_at : Option ℕ
  pub collected_at : ℕ
  pub content_hash : String
  pub provenance : Json
  pub quality : Json

pub record Snapshot : Type 0 where
  pub snapshot_id : String
  pub source_id : String
  pub source_url : String
  pub collected_at : ℕ
  pub content_hash : String
  pub extractor_version : String
  pub content_type : Option String
  pub content : String
  pub previous_snapshot_id : Option String
  pub diff : Option String

-- recipes/models.py
pub data RecipeAction : Type 0 where
  goto click fill select press wait scroll extract : RecipeAction

pub record RecipeStep : Type 0 where
  pub action : RecipeAction
  pub selector : Option String
  pub value : Option String
  pub details : Json

pub data RecipeStatus : Type 0 where
  candidate active invalidated : RecipeStatus

pub record SiteRecipe : Type 0 where
  pub recipe_id : String
  pub domain : String
  pub goal : String
  pub version : ℕ
  pub steps : List RecipeStep
  pub created_at : ℕ
  pub status : RecipeStatus
  pub verified_at : Option ℕ
  pub last_success_at : Option ℕ
  pub last_failure_at : Option ℕ
  pub invalidated_at : Option ℕ
  pub invalidation_reason : Option String
  pub failures : ℕ
  pub successes : ℕ
  pub total_failures : ℕ
