-- ===== src/Storage.antt =====
-- storage/: the PostgreSQL schema (postgres_migrations.py) as a state, its rows, and what the
-- repository classes raise.
pub mod Collections
pub mod Queue
pub mod Examples
pub mod Fencing
pub mod Commits
pub mod Recipes
pub mod Retention
pub mod Reads
pub mod Admission
use argus_web_intelligence.Prelude.{ℕ, String, Bool, List, [], Option}
use argus_web_intelligence.Prelude.Action.{Action, Result, ok, err}
use argus_web_intelligence.Sql.{PrimaryKey, Unique}
use argus_web_intelligence.Contracts.{
  CollectionStatus, CollectionRecord, Observation, Evidence, Snapshot, SiteRecipe,
}
use argus_web_intelligence.Contracts.Values.{Json}

-- argus.collections
pub record CollectionRow : Type 0 where
  pub collection_id : String
  pub status : CollectionStatus
  pub body : CollectionRecord
  pub created_at : ℕ
  pub updated_at : ℕ

-- argus.collection_idempotency
pub record IdempotencyRow : Type 0 where
  pub idempotency_key : String
  pub collection_id : String
  pub request_hash : String
  pub created_at : ℕ

-- argus.collection_leases
pub record LeaseRow : Type 0 where
  pub collection_id : String
  pub worker_id : String
  pub leased_at : ℕ
  pub heartbeat_at : ℕ
  pub lease_until : ℕ

-- argus.worker_instances
pub record WorkerRow : Type 0 where
  pub worker_id : String
  pub started_at : ℕ
  pub heartbeat_at : ℕ
  pub metadata : Json

-- argus.observations, argus.evidence: the identifier, the collection and the body
pub record ItemRow (Body : Type 0) : Type 0 where
  pub item_id : String
  pub collection_id : String
  pub body : Body

-- argus.snapshots
pub record SnapshotRow : Type 0 where
  pub snapshot_id : String
  pub source_url : String
  pub collected_at : ℕ
  pub body : Snapshot

-- argus.site_recipes
pub record RecipeRow : Type 0 where
  pub recipe_id : String
  pub domain : String
  pub goal : String
  pub version : ℕ
  pub body : SiteRecipe

-- argus.collection_result_access
pub record AccessRow : Type 0 where
  pub collection_id : String
  pub last_accessed_at : ℕ

instance abbrev pub CollectionRow_key : PrimaryKey CollectionRow
CollectionRow_key = record { key_of = λ r. r.collection_id }

instance abbrev pub IdempotencyRow_key : PrimaryKey IdempotencyRow
IdempotencyRow_key = record { key_of = λ r. r.idempotency_key }

instance abbrev pub LeaseRow_key : PrimaryKey LeaseRow
LeaseRow_key = record { key_of = λ r. r.collection_id }

instance abbrev pub WorkerRow_key : PrimaryKey WorkerRow
WorkerRow_key = record { key_of = λ r. r.worker_id }

instance abbrev pub ItemRow_key : {Body : Type 0} → PrimaryKey (ItemRow Body)
ItemRow_key = record { key_of = λ r. r.item_id }

instance abbrev pub SnapshotRow_key : PrimaryKey SnapshotRow
SnapshotRow_key = record { key_of = λ r. r.snapshot_id }

instance abbrev pub RecipeRow_key : PrimaryKey RecipeRow
RecipeRow_key = record { key_of = λ r. r.recipe_id }

instance abbrev pub AccessRow_key : PrimaryKey AccessRow
AccessRow_key = record { key_of = λ r. r.collection_id }

pub record Database : Type 0 where
  pub collections : List CollectionRow
  pub idempotency : List IdempotencyRow
  pub leases : List LeaseRow
  pub workers : List WorkerRow
  pub observations : List (ItemRow Observation)
  pub evidence : List (ItemRow Evidence)
  pub snapshots : List SnapshotRow
  pub recipes : List RecipeRow
  pub access : List AccessRow

abbrev pub empty_database : Database
empty_database = record {
  collections = [];
  idempotency = [];
  leases = [];
  workers = [];
  observations = [];
  evidence = [];
  snapshots = [];
  recipes = [];
  access = [];
}

-- The exceptions of psycopg that the code tells apart: OperationalError, InterfaceError, others.
pub data DriverError : Type 0 where
  operational interface other_error : DriverError

pub data CapacityScope : Type 0 where
  consumer_scope global_scope : CapacityScope

-- What the storage modules raise (base.py, lease_fencing.py, and built-in exceptions).
pub data StorageError : Type 0 where
  idempotency_conflict : StorageError
  queue_capacity : CapacityScope → ℕ → ℕ → StorageError
  unique_violation : StorageError
  missing_collection : StorageError
  collection_cancelled : StorageError
  commit_rejected : StorageError
  value_error : StorageError
  lease_lost : StorageError
  worker_storage : StorageError
  driver : DriverError → StorageError

abbrev pub Storage : Type 0 → Type 0
Storage A = Action Database StorageError A

-- The primary keys of the schema hold.
pub record KeysHold (db : Database) : Type 0 where
  pub collections_unique : Unique db.collections
  pub idempotency_unique : Unique db.idempotency
  pub leases-Unique : Unique db.leases
  pub workers_unique : Unique db.workers
