-- ===== src/Storage/Commits/Atomic.antt =====
-- A task commit is whole or absent, needs a live lease, and may be replayed.
use argus_web_intelligence.Prelude.{
  ℕ, true, false, not, List, [], ◌∷◌, none, some, String_eq, Nat_eq, ◌==◌, ◌≡◌, refl, arith, eq_iff,
  All, map, sym, ap, ◌∙◌, subst, any,
}
use argus_web_intelligence.Prelude.Action.{Result, ok, err}
use argus_web_intelligence.Sql.{find, Unique, count_where, update_where}
use argus_web_intelligence.Sql.Laws.{
  count_where-key, find-update_where, key-find, update_where-Unique,
}
use argus_web_intelligence.Contracts.{
  CollectionRecord, Observation, Evidence, Snapshot, is_cancelled,
}
use argus_web_intelligence.Storage.{
  Database, CollectionRow, CollectionRow_key, LeaseRow_key, ItemRow_key, SnapshotRow_key,
  StorageError, lease_lost, value_error, missing_collection,
}
use argus_web_intelligence.Storage.Collections.{overwrite}
use argus_web_intelligence.Storage.Queue.Leasing.{HoldsLease}
use argus_web_intelligence.Storage.Fencing.{LeaseFence, has_lease, storage_failure}
use argus_web_intelligence.Storage.Fencing.Guards.{
  has_lease_iff, has_lease-false, current_lease_fence_self,
}
use argus_web_intelligence.Storage.Commits.{
  commit_task_success, commit_items, commit_snapshots, observation_row, evidence_row, commits_to,
}
use argus_web_intelligence.Storage.Commits.Rows.{
  IsStored, commit_items-IsStored, commit_items-again, HasSnapshot, commit_snapshots-All,
  commit_snapshots-again,
}

commits_to-key :
    (r : CollectionRecord) (row : CollectionRow)
    → commits_to r row ≡ true
    → row.collection_id ≡ r.collection_id
commits_to-key r row h = ground (arith, eq_iff row.collection_id r.collection_id)

pub overwrite-key :
    (r : CollectionRecord) (row : CollectionRow)
    → (overwrite r row).collection_id ≡ row.collection_id
unfolding overwrite
overwrite-key r row = refl

module _ (fence : LeaseFence) (r : CollectionRecord) (observations : List Observation)
    (evidence : List Evidence) (snapshots : List Snapshot)
    (mine : fence.collection_id ≡ r.collection_id) where
  abbrev pub commit : ℕ → Database → Result StorageError (Unit {0}) × Database
  commit now db = commit_task_success (some fence) none now r observations evidence snapshots db

  -- The observations of the task belong to its collection.
  abbrev pub Belong : Type 0
  Belong = any (λ (o : Observation). not (o.collection_id == r.collection_id)) observations ≡ false

  abbrev pub committed : Database → Database
  committed db = record db {
    snapshots = commit_snapshots snapshots db.snapshots;
    observations =
        commit_items (map (observation_row r.collection_id) observations) db.observations;
    evidence = commit_items (map (evidence_row r.collection_id) evidence) db.evidence;
    collections = update_where (commits_to r) (overwrite r) db.collections;
  }

  -- The row that the commit writes to: it is there and is not cancelled.
  abbrev pub Open : Database → CollectionRow → Type 0
  Open db row = (find r.collection_id db.collections ≡ some row) × (is_cancelled row.status ≡ false)

  module _ (now : ℕ) (db : Database) (rows : Unique db.collections) where
    counted : (row : CollectionRow) → Open db row → count_where (commits_to r) db.collections ≡ 1
    counted row (here, free) = ground (
      arith,
      key-find r.collection_id db.collections here,
      eq_iff row.collection_id r.collection_id,
      count_where-key (commits_to r) r.collection_id db.collections (commits_to-key r) rows,
    )

    pub commit-granted :
        (row : CollectionRow)
        → Belong
        → Open db row
        → has_lease fence r.collection_id now db ≡ true
        → commit now db ≡ (ok tt, committed db)
    unfolding commit_task_success
    commit-granted row belong open_row granted =
        ground (arith, current_lease_fence_self fence r.collection_id mine, counted row open_row)

    -- A commit is whole or absent. With a live lease on a collection that is there and not
    -- cancelled it writes the snapshots, the observations, the evidence and the record; otherwise it
    -- raises, and the database is as it was: a foreign observation is a ValueError, a missing
    -- collection a RuntimeError, a cancelled one or a lost lease the loss of the lease.
    pub commit_task_success_cases :
        Unique db.leases
        → ((row : CollectionRow)
            → Belong
            → Open db row
            → HoldsLease db r.collection_id fence.worker_id now
            → commit now db ≡ (ok tt, committed db))
          × ((row : CollectionRow)
              → Belong
              → Open db row
              → ¬ HoldsLease db r.collection_id fence.worker_id now
              → commit now db ≡ (err lease_lost, db))
          × ((row : CollectionRow)
              → Belong
              → find r.collection_id db.collections ≡ some row
              → is_cancelled row.status ≡ true
              → commit now db ≡ (err lease_lost, db))
          × (Belong
              → find r.collection_id db.collections ≡ none
              → commit now db ≡ (err missing_collection, db))
          × (¬ Belong → commit now db ≡ (err value_error, db))
    unfolding commit_task_success storage_failure
    commit_task_success_cases u =
        let fenced = current_lease_fence_self fence r.collection_id mine in
        (
          λ row belong open_row holds.
              commit-granted row belong open_row
                ((has_lease_iff fence r.collection_id now db u).1 holds),
          λ row belong open_row lost.
              ground (arith, fenced, has_lease-false fence r.collection_id now db u lost),
          λ row belong here closed. ground (arith, fenced),
          λ belong gone. ground (arith, fenced),
          λ foreign. ground (arith, foreign),
        )

    pub find-overwritten :
        (row : CollectionRow)
        → Open db row
        → find r.collection_id (committed db).collections ≡ some (overwrite r row)
    find-overwritten row (here, free) = ground (
      arith,
      key-find r.collection_id db.collections here,
      eq_iff row.collection_id r.collection_id,
      find-update_where (commits_to r) (overwrite r) db.collections r.collection_id
          (overwrite-key r) rows,
    )

  -- After a commit the collection's row holds the record, and every observation and every item of
  -- evidence of the task is found under its identifier, if these differ.
  pub commit_task_success-IsStored :
      (now : ℕ) (db : Database) (row : CollectionRow)
      → Unique db.collections
      → Unique (map (observation_row r.collection_id) observations)
      → Unique (map (evidence_row r.collection_id) evidence)
      → Belong
      → Open db row
      → has_lease fence r.collection_id now db ≡ true
      → let after = (commit now db).1 in
        (find r.collection_id after.collections ≡ some (overwrite r row))
        × All (IsStored after.observations) (map (observation_row r.collection_id) observations)
        × All (IsStored after.evidence) (map (evidence_row r.collection_id) evidence)
        × All (HasSnapshot after.snapshots) snapshots
  commit_task_success-IsStored now db row rows uo ue belong open_row granted =
      rw (commit-granted now db rows row belong open_row granted) (
        find-overwritten now db rows row open_row,
        commit_items-IsStored (map (observation_row r.collection_id) observations) db.observations
            uo,
        commit_items-IsStored (map (evidence_row r.collection_id) evidence) db.evidence ue,
        commit_snapshots-All snapshots db.snapshots,
      )

  overwrite_twice :
      (rows : List CollectionRow)
      → update_where (commits_to r) (overwrite r) (update_where (commits_to r) (overwrite r) rows)
        ≡ update_where (commits_to r) (overwrite r) rows
  unfolding update_where overwrite
  overwrite_twice [] = refl
  overwrite_twice (x ∷ xs) = ground (arith, overwrite_twice xs)

  committed_twice :
      (db : Database)
      → Unique (map (observation_row r.collection_id) observations)
      → Unique (map (evidence_row r.collection_id) evidence)
      → committed (committed db) ≡ committed db
  committed_twice db uo ue =
      let os = map (observation_row r.collection_id) observations in
      let es = map (evidence_row r.collection_id) evidence in
      cc (
        overwrite_twice db.collections,
        commit_items-again os (commit_items os db.observations)
            (commit_items-IsStored os db.observations uo),
        commit_items-again es (commit_items es db.evidence)
            (commit_items-IsStored es db.evidence ue),
        commit_snapshots-again snapshots (commit_snapshots snapshots db.snapshots)
            (commit_snapshots-All snapshots db.snapshots),
      )

  overwrite-open :
      (row : CollectionRow)
      → is_cancelled r.status ≡ false
      → is_cancelled (overwrite r row).status ≡ false
  unfolding overwrite
  overwrite-open row running = running

  -- A commit, of a record that is not itself cancelled and of items with distinct identifiers, that
  -- is replayed, after a restart say, while the worker still holds the lease, changes nothing more:
  -- the same task twice is the task once.
  pub commit_task_success_replay :
      (now later : ℕ) (db : Database) (row : CollectionRow)
      → Unique db.collections
      → Unique (map (observation_row r.collection_id) observations)
      → Unique (map (evidence_row r.collection_id) evidence)
      → Belong
      → Open db row
      → is_cancelled r.status ≡ false
      → has_lease fence r.collection_id now db ≡ true
      → has_lease fence r.collection_id later (commit now db).1 ≡ true
      → commit later (commit now db).1 ≡ (ok tt, (commit now db).1)
  commit_task_success_replay now later db row rows uo ue belong open_row running granted again =
      subst (λ d. has_lease fence r.collection_id later d ≡ true → commit later d ≡ (ok tt, d))
        (sym (ap (λ x. x.1) (commit-granted now db rows row belong open_row granted)))
        (λ holds.
          commit-granted later (committed db)
            (update_where-Unique (commits_to r) (overwrite r) db.collections (overwrite-key r) rows)
            (overwrite r row) belong
            (find-overwritten now db rows row open_row, overwrite-open row running) holds
          ∙ ap (λ d. (ok tt, d)) (committed_twice db uo ue))
        again
