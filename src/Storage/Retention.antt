-- ===== src/Storage/Retention.antt =====
-- storage/postgres.py: one bounded pass that deletes what is old. The order of texts is the
-- database's collation; `acquired` is the answer of pg_try_advisory_xact_lock.
pub mod Batches
pub mod Kept
mod Examples
use argus_web_intelligence.Prelude.{
  ℕ, ◌+◌, ◌*◌, max, String, Bool, true, false, ◌&&◌, ◌||◌, not, List, [], ◌∷◌, String_eq, Nat_eq,
  ◌==◌, if◌then◌else◌, any, leb, ltb, map,
}
use argus_web_intelligence.Prelude.Action.{Result, ok, err}
use argus_web_intelligence.Sql.{PrimaryKey, key_of, count_where, delete_where, select_limit}
use argus_web_intelligence.Contracts.{is_finished, second, day}
use argus_web_intelligence.Storage.{
  Database, CollectionRow, CollectionRow_key, IdempotencyRow, IdempotencyRow_key, WorkerRow,
  WorkerRow_key, SnapshotRow, SnapshotRow_key, AccessRow, ItemRow, LeaseRow, Storage,
}

-- base.RetentionResult
pub record RetentionResult : Type 0 where
  pub idempotency_deleted : ℕ
  pub collections_deleted : ℕ
  pub snapshots_deleted : ℕ
  pub workers_deleted : ℕ

pub record RetentionPolicy : Type 0 where
  pub idempotency_window_seconds : ℕ
  pub collection_retention_days : ℕ
  pub snapshot_retention_days : ℕ
  pub worker_registration_retention_days : ℕ
  pub result_access_grace_seconds : ℕ
  pub batch_size : ℕ

-- The clamps at the start of run_retention.
unfoldable pub clamped : RetentionPolicy → RetentionPolicy
clamped p = record {
  idempotency_window_seconds = max 1 p.idempotency_window_seconds;
  collection_retention_days = max 1 p.collection_retention_days;
  snapshot_retention_days = max (max 1 p.collection_retention_days) p.snapshot_retention_days;
  worker_registration_retention_days = max 1 p.worker_registration_retention_days;
  result_access_grace_seconds = max 60 p.result_access_grace_seconds;
  batch_size = max 1 p.batch_size;
}

module _ {Row : Type 0} ⦃t : PrimaryKey Row⦄ where
  -- WITH targets AS (SELECT key … WHERE test ORDER BY … LIMIT n)
  unfoldable pub targets : (Row → Bool) → (Row → Row → Bool) → ℕ → List Row → List String
  unfolding select_limit
  targets test before n rows = map key_of (select_limit test before n rows)

  -- DELETE … USING targets WHERE key = target key
  unfoldable pub is_target : List String → Row → Bool
  is_target keys row = any (λ k. k == key_of row) keys

-- `created_at <= NOW() - window`
unfoldable pub is_stale_key : ℕ → ℕ → IdempotencyRow → Bool
is_stale_key now window_seconds row = leb (row.created_at + window_seconds * second) now

-- NOT EXISTS (… a.last_accessed_at >= NOW() - grace)
unfoldable pub was_read : ℕ → ℕ → List AccessRow → CollectionRow → Bool
was_read now grace_seconds access row =
    any
      (λ (a : AccessRow).
        a.collection_id == row.collection_id
        && leb now (a.last_accessed_at + grace_seconds * second))
      access

unfoldable pub is_old_collection : ℕ → ℕ → ℕ → List AccessRow → CollectionRow → Bool
unfolding was_read
is_old_collection now days grace_seconds access row =
    is_finished row.status
    && leb (row.updated_at + days * day) now
    && not (was_read now grace_seconds access row)

unfoldable pub is_idle_worker : ℕ → ℕ → WorkerRow → Bool
is_idle_worker now days row = leb (row.heartbeat_at + days * day) now

-- ON DELETE CASCADE of the tables that name a collection
unfoldable pub cascade : List String → Database → Database
unfolding is_target
cascade ids db =
    let gone = λ (id : String). any (λ k. k == id) ids in
    record db {
      collections = delete_where (is_target ids) db.collections;
      idempotency = delete_where (λ row. gone row.collection_id) db.idempotency;
      leases = delete_where (λ row. gone row.collection_id) db.leases;
      observations = delete_where (λ row. gone row.collection_id) db.observations;
      evidence = delete_where (λ row. gone row.collection_id) db.evidence;
      access = delete_where (λ row. gone row.collection_id) db.access;
    }

abbrev oldest_key : IdempotencyRow → IdempotencyRow → Bool
oldest_key a b = leb a.created_at b.created_at

module _ (text_le : String → String → Bool) where
  -- ORDER BY time ASC, key ASC
  abbrev by_time : {Row : Type 0} ⦃t : PrimaryKey Row⦄ → (Row → ℕ) → Row → Row → Bool
  by_time time a b = ltb (time a) (time b) || (time a == time b && text_le (key_of a) (key_of b))

  -- ORDER BY collected_at DESC, snapshot_id DESC: `a` stands before `b`
  unfoldable pub is_newer : SnapshotRow → SnapshotRow → Bool
  is_newer a b =
      ltb b.collected_at a.collected_at
      || (a.collected_at == b.collected_at && not (text_le a.snapshot_id b.snapshot_id))

  -- `position > 1` in its partition, and `collected_at <= NOW() - age`
  unfoldable pub is_old_snapshot : ℕ → ℕ → List SnapshotRow → SnapshotRow → Bool
  unfolding is_newer
  is_old_snapshot now days rows row =
      any (λ (other : SnapshotRow). other.source_url == row.source_url && is_newer other row) rows
      && leb (row.collected_at + days * day) now

  module _ (now : ℕ) (p : RetentionPolicy) where
    unfoldable pub stale_keys : Database → List String
    unfolding targets is_stale_key
    stale_keys db =
        targets (is_stale_key now p.idempotency_window_seconds) oldest_key p.batch_size
          db.idempotency

    unfoldable pub old_collections : Database → List String
    unfolding targets is_old_collection
    old_collections db =
        targets
          (is_old_collection now p.collection_retention_days p.result_access_grace_seconds
            db.access)
          (by_time (λ (row : CollectionRow). row.updated_at)) p.batch_size db.collections

    unfoldable pub old_snapshots : Database → List String
    unfolding targets is_old_snapshot
    old_snapshots db =
        targets (is_old_snapshot now p.snapshot_retention_days db.snapshots)
          (by_time (λ (row : SnapshotRow). row.collected_at)) p.batch_size db.snapshots

    unfoldable pub idle_workers : Database → List String
    unfolding targets is_idle_worker
    idle_workers db =
        targets (is_idle_worker now p.worker_registration_retention_days)
          (by_time (λ (row : WorkerRow). row.heartbeat_at)) p.batch_size db.workers

    -- The four statements, each on what those before it left.
    unfoldable pub delete_old : Database → RetentionResult × Database
    unfolding stale_keys old_collections old_snapshots idle_workers cascade is_target
    delete_old db =
        let keys = stale_keys db in
        let db₁ = record db { idempotency = delete_where (is_target keys) db.idempotency } in
        let ids = old_collections db₁ in
        let db₂ = cascade ids db₁ in
        let snapshots = old_snapshots db₂ in
        let db₃ = record db₂ { snapshots = delete_where (is_target snapshots) db₂.snapshots } in
        let workers = idle_workers db₃ in
        (
          record {
            idempotency_deleted = count_where (is_target keys) db.idempotency;
            collections_deleted = count_where (is_target ids) db₁.collections;
            snapshots_deleted = count_where (is_target snapshots) db₂.snapshots;
            workers_deleted = count_where (is_target workers) db₃.workers;
          },
          record db₃ { workers = delete_where (is_target workers) db₃.workers },
        )

  -- PostgresRepository.run_retention
  unfoldable pub run_retention : Bool → ℕ → RetentionPolicy → Storage RetentionResult
  unfolding delete_old clamped
  run_retention false now p db = (
    ok (record {
      idempotency_deleted = 0;
      collections_deleted = 0;
      snapshots_deleted = 0;
      workers_deleted = 0;
    }),
    db,
  )
  run_retention true now p db =
      let (result, db') = delete_old now (clamped p) db in (ok result, db')
