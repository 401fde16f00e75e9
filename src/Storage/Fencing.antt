-- ===== src/Storage/Fencing.antt =====
-- storage/lease_fencing.py and storage/fenced_postgres.py: while a worker runs a collection, its
-- writes are accepted only under a live lease. The fence is the context variable; `outage` is the
-- exception that the driver raises in the call, if it raises one.
pub mod Guards
pub mod Writes
pub mod Items
pub mod Lapsed
pub mod Stale
use argus_web_intelligence.Prelude.{
  ℕ, String, Bool, true, false, ◌&&◌, ◌||◌, not, List, [], ◌∷◌, Option, none, some, String_eq, ◌==◌,
  if◌then◌else◌, any, is_some, Nat_eq, map,
}
use argus_web_intelligence.Prelude.Text.{strip}
use argus_web_intelligence.Prelude.Action.{
  Result, ok, err, pure, raise, ◌>>=◌, ◌>>◌, transaction, settle, continue, through,
}
use argus_web_intelligence.Sql.{
  find, count_where, update_where, insert_or_replace, insert_or_ignore,
}
use argus_web_intelligence.Contracts.{
  CollectionRecord, Observation, Evidence, Snapshot, is_cancelled,
}
use argus_web_intelligence.Storage.{
  Database, CollectionRow, CollectionRow_key, LeaseRow, ItemRow, ItemRow_key, SnapshotRow,
  SnapshotRow_key, Storage, StorageError, DriverError, operational, interface, other_error, driver,
  lease_lost, worker_storage, value_error, missing_collection, collection_cancelled,
  commit_rejected,
}
use argus_web_intelligence.Storage.Collections.{update_collection, overwrite, accepts_update}
use argus_web_intelligence.Storage.Queue.{owns_live}

pub record LeaseFence : Type 0 where
  pub collection_id : String
  pub worker_id : String

-- lease_fencing.lease_fence: the fence that the context manager installs
unfoldable pub lease_fence : String → String → Result StorageError LeaseFence
unfolding strip
lease_fence collection_id worker_id =
    let collection = strip collection_id in
    let worker = strip worker_id in
    if collection == "" || worker == ""
    then err value_error
    else ok (record { collection_id = collection; worker_id = worker })

-- lease_fencing.current_lease_fence
unfoldable pub current_lease_fence : Option LeaseFence → String → Option LeaseFence
current_lease_fence none collection_id = none
current_lease_fence (some fence) collection_id =
    if fence.collection_id == collection_id then some fence else none

-- FencedPostgresRepository._is_retryable_storage_error
unfoldable pub is_retryable_storage_error : StorageError → Bool
is_retryable_storage_error (driver operational) = true
is_retryable_storage_error (driver interface) = true
is_retryable_storage_error _ = false

-- FencedPostgresRepository._raise_storage_failure: what is raised in place of an exception
unfoldable pub storage_failure : StorageError → StorageError
unfolding is_retryable_storage_error
storage_failure e = if is_retryable_storage_error e then worker_storage else e

-- try: … except Exception as exc: self._raise_storage_failure(fence, …, exc)
abbrev pub translate :
    {A : Type 0} → Result StorageError A × Database → Result StorageError A × Database
translate (ok a, db) = (ok a, db)
translate (err e, db) = (err (storage_failure e), db)

-- EXISTS (SELECT 1 FROM argus.collection_leases …)
unfoldable pub has_lease : LeaseFence → String → ℕ → Database → Bool
has_lease fence collection_id now db = any (owns_live collection_id fence.worker_id now) db.leases

-- EXISTS (SELECT 1 FROM argus.collections WHERE collection_id=%s AND status <> 'cancelled')
unfoldable pub is_writable : String → Database → Bool
is_writable collection_id db =
    any
      (λ (row : CollectionRow). row.collection_id == collection_id && not (is_cancelled row.status))
      db.collections

-- `if cursor.rowcount != 1: raise`
abbrev require_one : ℕ → StorageError → Storage (Unit {0})
require_one n e db = if n == 1 then (ok tt, db) else (err e, db)

fenced_update : LeaseFence → ℕ → CollectionRecord → Storage ℕ
fenced_update fence now r db =
    let test =
      λ (row : CollectionRow). accepts_update r row && has_lease fence r.collection_id now db in
    (
      ok (count_where test db.collections),
      record db { collections = update_where test (overwrite r) db.collections },
    )

update_under : Option LeaseFence → Option StorageError → ℕ → CollectionRecord → Storage (Unit {0})
unfolding fenced_update
update_under none outage now r db = through outage (update_collection r) db
update_under (some fence) outage now r db =
    ((λ s. translate (through outage (fenced_update fence now r) s)) >>= λ n.
    require_one n lease_lost)
      db

-- FencedPostgresRepository.update_collection
unfoldable pub fenced_update_collection :
    Option LeaseFence → Option StorageError → ℕ → CollectionRecord → Storage (Unit {0})
unfolding update_under
fenced_update_collection fence outage now r =
    update_under (current_lease_fence fence r.collection_id) outage now r

-- The condition of INSERT … SELECT … WHERE, and of DO UPDATE … WHERE: the same on both branches.
unfoldable pub may_write_item : Option LeaseFence → String → ℕ → Database → Bool
may_write_item none collection_id now db = is_writable collection_id db
may_write_item (some fence) collection_id now db =
    is_writable collection_id db && has_lease fence collection_id now db

-- The rows after the statement, and `cursor.rowcount`.
unfoldable pub upsert_item :
    {Body : Type 0} → Bool → ItemRow Body → List (ItemRow Body) → List (ItemRow Body) × ℕ
upsert_item allowed new rows = if allowed then (insert_or_replace new rows, 1) else (rows, 0)

-- A call with no lease does not look at `rowcount`.
after_upsert : Option LeaseFence → ℕ → Storage (Unit {0})
after_upsert none n db = (ok tt, db)
after_upsert (some fence) n db = require_one n lease_lost db

under : Option LeaseFence → Option StorageError → Storage ℕ → Storage ℕ
under none outage m db = through outage m db
under (some fence) outage m db = translate (through outage m db)

-- add_observation, by FencedPostgresRepository._upsert_collection_json
unfoldable pub add_observation :
    Option LeaseFence → Option StorageError → ℕ → Observation → Storage (Unit {0})
unfolding under after_upsert upsert_item
add_observation context outage now o db =
    let fence = current_lease_fence context o.collection_id in
    let new : ItemRow Observation = record {
      item_id = o.observation_id;
      collection_id = o.collection_id;
      body = o;
    } in
    (under fence outage (λ s.
          let (rows, n) =
            upsert_item (may_write_item fence o.collection_id now s) new s.observations in
          (ok n, record s { observations = rows }))
        >>= after_upsert fence)
      db

-- add_evidence, by FencedPostgresRepository._upsert_collection_json
unfoldable pub add_evidence :
    Option LeaseFence → Option StorageError → ℕ → Evidence → String → Storage (Unit {0})
unfolding under after_upsert upsert_item
add_evidence context outage now e collection_id db =
    let fence = current_lease_fence context collection_id in
    let new : ItemRow Evidence = record {
      item_id = e.evidence_id;
      collection_id = collection_id;
      body = e;
    } in
    (under fence outage (λ s.
          let (rows, n) = upsert_item (may_write_item fence collection_id now s) new s.evidence in
          (ok n, record s { evidence = rows }))
        >>= after_upsert fence)
      db

abbrev pub snapshot_row : Snapshot → SnapshotRow
snapshot_row s = record {
  snapshot_id = s.snapshot_id;
  source_url = s.source_url;
  collected_at = s.collected_at;
  body = s;
}

snapshot_under :
    Option LeaseFence → Option StorageError → ℕ → Snapshot → String → Storage (Unit {0})
unfolding insert_or_ignore
snapshot_under none outage now s id db =
    through outage
      (λ d. (ok tt, record d { snapshots = (insert_or_ignore (snapshot_row s) d.snapshots).0 })) db
snapshot_under (some fence) outage now s id db = translate (
    through outage
      (λ d.
        let (rows, written) = insert_or_ignore (snapshot_row s) d.snapshots in
        if has_lease fence id now d && written
        then (ok tt, record d { snapshots = rows })
        else if is_some (find s.snapshot_id d.snapshots)
        then (ok tt, d)
        else (err lease_lost, d))
      db)

-- FencedPostgresRepository.add_snapshot; `collection_id or ""`
unfoldable pub add_snapshot :
    Option LeaseFence → Option StorageError → ℕ → Snapshot → Option String → Storage (Unit {0})
unfolding snapshot_under
add_snapshot context outage now s none = snapshot_under none outage now s ""
add_snapshot context outage now s (some collection_id) =
    let id = strip collection_id in
    if id == ""
    then snapshot_under none outage now s id
    else snapshot_under (current_lease_fence context id) outage now s id
