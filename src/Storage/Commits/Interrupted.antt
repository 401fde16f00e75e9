-- ===== src/Storage/Commits/Interrupted.antt =====
-- A task commit that the driver interrupts leaves no trace.
use argus_web_intelligence.Prelude.{
  ℕ, not, List, Option, none, some, Option-cases, Bool-cases, inl, inr, ◌⊎◌, String_eq, Nat_eq,
  ◌==◌, ◌≡◌, arith, sym, ap, subst, any,
}
use argus_web_intelligence.Prelude.Action.{Result, ok, err}
use argus_web_intelligence.Sql.{find, Unique}
use argus_web_intelligence.Sql.Laws.{update_where-Unique}
use argus_web_intelligence.Contracts.{
  CollectionRecord, Observation, Evidence, Snapshot, is_cancelled,
}
use argus_web_intelligence.Storage.{
  Database, CollectionRow, CollectionRow_key, LeaseRow_key, ItemRow_key, SnapshotRow_key,
  StorageError, lease_lost, value_error, missing_collection, worker_storage, DriverError, driver,
  operational, interface, other_error,
}
use argus_web_intelligence.Storage.Collections.{overwrite}
use argus_web_intelligence.Storage.Queue.Leasing.{HoldsLease}
use argus_web_intelligence.Storage.Fencing.{LeaseFence, has_lease, storage_failure}
use argus_web_intelligence.Storage.Fencing.Guards.{has_lease_iff, current_lease_fence_self}
use argus_web_intelligence.Storage.Commits.{Interruption, commit_task_success, commits_to}
use argus_web_intelligence.Storage.Commits.Atomic.{
  commit, Belong, Open, commit-granted, find-overwritten, overwrite-key,
}

module _ (fence : LeaseFence) (r : CollectionRecord) (observations : List Observation)
    (evidence : List Evidence) (snapshots : List Snapshot)
    (mine : fence.collection_id ≡ r.collection_id) where
  abbrev interrupted :
      Option Interruption → ℕ → Database → Result StorageError (Unit {0}) × Database
  interrupted outage now db =
      commit_task_success (some fence) outage now r observations evidence snapshots db

  -- The commit is refused, or raises what the driver has raised, and the database is as it was.
  interrupted-whole :
      (i : Interruption) (now : ℕ) (db : Database)
      → (e : StorageError) × (interrupted (some i) now db ≡ (err e, db))
  unfolding commit_task_success storage_failure
  interrupted-whole i now db =
      let fenced = current_lease_fence_self fence r.collection_id mine in
      elim (Bool-cases
        (any (λ (o : Observation). not (o.collection_id == r.collection_id)) observations)) [
          | inl f ↦ (value_error, ground arith)
          | inr f ↦ elim (Bool-cases (i.statements == 0)) [
            | inl z ↦ (storage_failure i.error, ground (arith, fenced))
            | inr nz ↦ elim (Option-cases (find r.collection_id db.collections)) [
              | inl n ↦ (missing_collection, ground (arith, fenced))
              | inr (row, n) ↦ elim (Bool-cases (is_cancelled row.status)) [
                | inl c ↦ (lease_lost, ground (arith, fenced))
                | inr c ↦ elim (Bool-cases (i.statements == 1)) [
                  | inl o ↦ (storage_failure i.error, ground (arith, fenced))
                  | inr late ↦ elim (Bool-cases (has_lease fence r.collection_id now db)) [
                    | inl h ↦ (storage_failure i.error, ground (arith, fenced))
                    | inr h ↦ (lease_lost, ground (arith, fenced))
                  ]
                ]
              ]
            ]
          ]
        ]

  -- A commit that the driver interrupts after any number of its statements leaves no trace: it
  -- raises, and the database is as it was, whatever had been inserted before. To a worker with a
  -- live lease on a collection that is there and not cancelled, for observations of that collection,
  -- an OperationalError or InterfaceError is a storage failure, after which the attempt is replayed,
  -- and any other error is passed on.
  pub commit_task_success_interrupted :
      (statements : ℕ) (d : DriverError) (now : ℕ) (db : Database)
      → Unique db.leases
      → ((e : StorageError) × (interrupted
              (some (record { statements = statements; error = driver d }))
              now
              db
            ≡ (err e, db)))
        × ((row : CollectionRow)
            → Belong fence r observations evidence snapshots mine
            → Open fence r observations evidence snapshots mine db row
            → HoldsLease db r.collection_id fence.worker_id now
            → interrupted (some (record { statements = statements; error = driver d })) now db ≡ (
              err (elim d [
                | operational ↦ worker_storage
                | interface ↦ worker_storage
                | other_error ↦ driver other_error
              ]),
              db,
            ))
  unfolding commit_task_success storage_failure
  commit_task_success_interrupted statements d now db u = (
    interrupted-whole (record { statements = statements; error = driver d }) now db,
    λ row belong open_row holds.
        let granted = (has_lease_iff fence r.collection_id now db u).1 holds in
        let fenced = current_lease_fence_self fence r.collection_id mine in
        ground (arith, fenced, granted),
  )

  uninterrupted-whole :
      (now : ℕ) (db : Database)
      → Unique db.collections
      → (((commit fence r observations evidence snapshots mine now db).0 ≡ ok tt)
          × Unique (commit fence r observations evidence snapshots mine now db).1.collections
          × ((row : CollectionRow) × (find r.collection_id
                  (commit fence r observations evidence snapshots mine now db).1.collections
                ≡ some (overwrite r row))))
        ⊎ ((e : StorageError) × (commit fence r observations evidence snapshots mine now db
              ≡ (err e, db)))
  unfolding commit_task_success storage_failure
  uninterrupted-whole now db rows =
      let fenced = current_lease_fence_self fence r.collection_id mine in
      elim (Bool-cases
        (any (λ (o : Observation). not (o.collection_id == r.collection_id)) observations)) [
          | inl f ↦ inr (value_error, ground arith)
          | inr f ↦ elim (Option-cases (find r.collection_id db.collections)) [
            | inl n ↦ inr (missing_collection, ground (arith, fenced))
            | inr (row, n) ↦ elim (Bool-cases (is_cancelled row.status)) [
              | inl c ↦ inr (lease_lost, ground (arith, fenced))
              | inr c ↦ elim (Bool-cases (has_lease fence r.collection_id now db)) [
                | inl h ↦
                    let written =
                      commit-granted fence r observations evidence snapshots mine now db rows row f
                        (n, c) h in
                    inl (
                      ap (λ x. x.0) written,
                      subst (λ x. Unique x.1.collections) (sym written)
                          (update_where-Unique (commits_to r) (overwrite r) db.collections
                            (overwrite-key r) rows),
                      (
                        row,
                        subst (λ x. find r.collection_id x.1.collections ≡ some (overwrite r row))
                            (sym written)
                            (find-overwritten fence r observations evidence snapshots mine now db
                              rows row (n, c)),
                      ),
                    )
                | inr h ↦ inr (lease_lost, ground (arith, fenced))
              ]
            ]
          ]
        ]

  -- A commit under a lease, interrupted or not: the record is the body of the row of the collection,
  -- or the commit has raised and the database is as it was.
  pub commit_task_success-whole :
      (outage : Option Interruption) (now : ℕ) (db : Database)
      → Unique db.collections
      → (((interrupted outage now db).0 ≡ ok tt)
          × Unique (interrupted outage now db).1.collections
          × ((row : CollectionRow) × (find r.collection_id (interrupted outage now db).1.collections
                ≡ some (overwrite r row))))
        ⊎ ((e : StorageError) × (interrupted outage now db ≡ (err e, db)))
  commit_task_success-whole (some i) now db rows = inr (interrupted-whole i now db)
  commit_task_success-whole none now db rows = uninterrupted-whole now db rows
