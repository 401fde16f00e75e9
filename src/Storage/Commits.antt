-- ===== src/Storage/Commits.antt =====
-- storage/fenced_postgres.py: one successful source task is persisted with its checkpoint, in one
-- transaction.
pub mod Rows
pub mod Atomic
pub mod Interrupted
use argus_web_intelligence.Prelude.{
  ℕ, ◌-◌, length, take, String, Bool, true, false, ◌&&◌, ◌||◌, not, List, [], ◌∷◌, Option, none,
  some, String_eq, ◌==◌, if◌then◌else◌, any, is_some, Nat_eq, map,
}
use argus_web_intelligence.Prelude.Action.{
  Result, ok, err, pure, raise, ◌>>=◌, ◌>>◌, transaction, settle, continue, through,
}
use argus_web_intelligence.Sql.{
  find, count_where, update_where, insert_or_replace, insert_or_ignore,
}
use argus_web_intelligence.Contracts.{
  CollectionRecord, Observation, Evidence, Snapshot, is_cancelled,
}
use argus_web_intelligence.Storage.{
  Database, CollectionRow, CollectionRow_key, ItemRow, ItemRow_key, SnapshotRow, SnapshotRow_key,
  Storage, StorageError, lease_lost, value_error, missing_collection, collection_cancelled,
  commit_rejected,
}
use argus_web_intelligence.Storage.Collections.{overwrite}
use argus_web_intelligence.Storage.Fencing.{
  LeaseFence, current_lease_fence, has_lease, snapshot_row, translate,
}

-- The driver raises in the statement that follows this many others: the SELECT of the collection,
-- the SELECT of the lease, the INSERTs, the UPDATE. Without a fence the second of them is passed over.
pub record Interruption : Type 0 where
  pub statements : ℕ
  pub error : StorageError

-- The INSERT loops of commit_task_success.
unfoldable pub commit_snapshots : List Snapshot → List SnapshotRow → List SnapshotRow
commit_snapshots [] rows = rows
commit_snapshots (s ∷ ss) rows = commit_snapshots ss (insert_or_ignore (snapshot_row s) rows).0

abbrev pub observation_row : String → Observation → ItemRow Observation
observation_row id o = record { item_id = o.observation_id; collection_id = id; body = o }

abbrev pub evidence_row : String → Evidence → ItemRow Evidence
evidence_row id e = record { item_id = e.evidence_id; collection_id = id; body = e }

unfoldable pub commit_items :
    {Body : Type 0} → List (ItemRow Body) → List (ItemRow Body) → List (ItemRow Body)
commit_items [] rows = rows
commit_items (i ∷ is) rows = commit_items is (insert_or_replace i rows)

-- What the driver raises in one of the first two statements
before_statement : ℕ → Option Interruption → Storage (Unit {0})
before_statement n none db = (ok tt, db)
before_statement n (some i) db = if i.statements == n then (err i.error, db) else (ok tt, db)

-- SELECT status … FOR UPDATE: `fenced` says whether the call has a lease context.
lock_collection : Option LeaseFence → Option CollectionRow → Storage (Unit {0})
lock_collection fence none db = (err missing_collection, db)
lock_collection fence (some row) db =
    if is_cancelled row.status
    then (err (if is_some fence then lease_lost else collection_cancelled), db)
    else (ok tt, db)

lock_lease : Option LeaseFence → String → ℕ → Storage (Unit {0})
lock_lease none id now db = (ok tt, db)
lock_lease (some fence) id now db =
    if has_lease fence id now db then (ok tt, db) else (err lease_lost, db)

-- `collection_id=%s AND status <> 'cancelled'`
abbrev pub commits_to : CollectionRecord → CollectionRow → Bool
commits_to r row = row.collection_id == r.collection_id && not (is_cancelled row.status)

write_record : Option LeaseFence → CollectionRecord → Storage (Unit {0})
write_record fence r db =
    let n = count_where (commits_to r) db.collections in
    let written = record db {
      collections = update_where (commits_to r) (overwrite r) db.collections;
    } in
    if n == 1
    then (ok tt, written)
    else (err (if is_some fence then lease_lost else commit_rejected), written)

with_items :
    CollectionRecord → List Observation → List Evidence → List Snapshot → Database → Database
with_items r observations evidence snapshots db = record db {
  snapshots = commit_snapshots snapshots db.snapshots;
  observations = commit_items (map (observation_row r.collection_id) observations) db.observations;
  evidence = commit_items (map (evidence_row r.collection_id) evidence) db.evidence;
}

-- The INSERTs: all of them, or the first few, when the driver raises in one, or in the UPDATE that
-- follows.
write_items :
    Option Interruption
    → CollectionRecord
    → List Observation
    → List Evidence
    → List Snapshot
    → Storage (Unit {0})
unfolding with_items
write_items none r observations evidence snapshots db =
    (ok tt, with_items r observations evidence snapshots db)
write_items (some i) r observations evidence snapshots db =
    let n = i.statements - 2 in
    let m = n - length snapshots in
    (
      err i.error,
      with_items r (take m observations) (take (m - length observations) evidence)
          (take n snapshots) db,
    )

commit_under :
    Option LeaseFence
    → Option Interruption
    → ℕ
    → CollectionRecord
    → List Observation
    → List Evidence
    → List Snapshot
    → Storage (Unit {0})
unfolding before_statement lock_collection lock_lease write_items write_record
commit_under fence outage now r observations evidence snapshots db =
    transaction
      (do
        before_statement 0 outage
        lock_collection fence (find r.collection_id db.collections)
        before_statement 1 outage
        lock_lease fence r.collection_id now
        write_items outage r observations evidence snapshots
        write_record fence r)
      db

-- `except (LeaseLostError, WorkerStorageError): raise`, then `except Exception`
abbrev translate_under :
    {A : Type 0}
    → Option LeaseFence
    → Result StorageError A × Database
    → Result StorageError A × Database
translate_under none x = x
translate_under (some fence) x = translate x

-- FencedPostgresRepository.commit_task_success
unfoldable pub commit_task_success :
    Option LeaseFence
    → Option Interruption
    → ℕ
    → CollectionRecord
    → List Observation
    → List Evidence
    → List Snapshot
    → Storage (Unit {0})
unfolding commit_under
commit_task_success context outage now r observations evidence snapshots db =
    let fence = current_lease_fence context r.collection_id in
    if any (λ (o : Observation). not (o.collection_id == r.collection_id)) observations
    then (err value_error, db)
    else translate_under fence (commit_under fence outage now r observations evidence snapshots db)
