-- ===== src/Storage/Fencing/Writes.antt =====
-- What a write under a lease does: it is all there, or the worker learns that its lease is lost and
-- nothing has changed.
use argus_web_intelligence.Prelude.{
  ℕ, String, Bool, true, false, ◌&&◌, Option, none, some, String_eq, if◌then◌else◌, ◌≡◌, ◌≢◌, refl,
  ap, sym, subst, arith, eq_iff, Option-cases, Bool-cases, inl, inr, ◌⊎◌,
}
use argus_web_intelligence.Prelude.Action.{Result, ok, err}
use argus_web_intelligence.Sql.{find, Unique, update_where}
use argus_web_intelligence.Sql.Laws.{
  key-find, count_where-key, update_where-zero, find-update_where, update_where-Unique,
}
use argus_web_intelligence.Contracts.{CollectionRecord, is_cancelled}
use argus_web_intelligence.Storage.{
  Database, CollectionRow, CollectionRow_key, LeaseRow_key, ItemRow_key, StorageError, lease_lost,
  SnapshotRow_key,
}
use argus_web_intelligence.Storage.Collections.{overwrite, accepts_update}
use argus_web_intelligence.Storage.Queue.Leasing.{HoldsLease}
use argus_web_intelligence.Storage.Fencing.{
  LeaseFence, has_lease, fenced_update_collection, storage_failure,
}
use argus_web_intelligence.Storage.Fencing.Guards.{
  has_lease_iff, has_lease-false, current_lease_fence_self,
}

accepts_update-key :
    (r : CollectionRecord) (row : CollectionRow)
    → accepts_update r row ≡ true
    → row.collection_id ≡ r.collection_id
unfolding accepts_update
accepts_update-key r row h = ground (arith, eq_iff row.collection_id r.collection_id)

overwrite-key :
    (r : CollectionRecord) (row : CollectionRow)
    → (overwrite r row).collection_id ≡ row.collection_id
unfolding overwrite
overwrite-key r row = refl

module _ (fence : LeaseFence) (now : ℕ) (r : CollectionRecord) (db : Database)
    (mine : fence.collection_id ≡ r.collection_id) (rows : Unique db.collections) where
  abbrev updated : Result StorageError (Unit {0}) × Database
  updated = fenced_update_collection (some fence) none now r db

  abbrev test : CollectionRow → Bool
  test row = accepts_update r row && has_lease fence r.collection_id now db

  test-key : (row : CollectionRow) → test row ≡ true → row.collection_id ≡ r.collection_id
  test-key row h = accepts_update-key r row (ground (arith, h))

  updated_lem : updated ≡ (elim (find r.collection_id db.collections) [
    | none ↦ (err lease_lost, db)
    | some row ↦
        if test row
        then (ok tt, record db { collections = update_where test (overwrite r) db.collections })
        else (err lease_lost, db)
  ])
  unfolding fenced_update_collection storage_failure
  updated_lem = ground (
    arith,
    current_lease_fence_self fence r.collection_id mine,
    count_where-key test r.collection_id db.collections test-key rows,
    update_where-zero test (overwrite r) db.collections,
  )

  -- The stored row that the update may replace.
  abbrev Replaces : CollectionRow → Type 0
  Replaces row =
      (find r.collection_id db.collections ≡ some row)
      × ((is_cancelled row.status ≡ false) ⊎ (is_cancelled r.status ≡ true))

  test-true :
      (row : CollectionRow)
      → Replaces row
      → has_lease fence r.collection_id now db ≡ true
      → test row ≡ true
  unfolding accepts_update
  test-true row (here, free) granted = ground (
    arith,
    key-find r.collection_id db.collections here,
    eq_iff row.collection_id r.collection_id,
  )

  find-updated :
      (k : String) (row : CollectionRow)
      → find r.collection_id db.collections ≡ some row
      → test row ≡ true
      → find k updated.1.collections ≡ (elim (find k db.collections) [
        | none ↦ none
        | some x ↦ some (if test x then overwrite r x else x)
      ])
  find-updated k row here passes = ground (
    arith,
    updated_lem,
    find-update_where test (overwrite r) db.collections k (overwrite-key r) rows,
  )

  find-updated_ne :
      (k : String) (row : CollectionRow)
      → find r.collection_id db.collections ≡ some row
      → test row ≡ true
      → k ≢ r.collection_id
      → find k updated.1.collections ≡ find k db.collections
  find-updated_ne k row here passes ne = elim (Option-cases (find k db.collections)) [
    | inl e ↦ ground (arith, find-updated k row here passes)
    | inr (x, e) ↦
        ground (arith, find-updated k row here passes, key-find k db.collections e, test-key x)
  ]

  not_replaced :
      (row : CollectionRow)
      → find r.collection_id db.collections ≡ some row
      → ¬ ((x : CollectionRow) × Replaces x)
      → accepts_update r row ≡ false
  unfolding accepts_update
  not_replaced row e gone = elim (Bool-cases (is_cancelled row.status)) [
    | inl h ↦ elim (Bool-cases (is_cancelled r.status)) [
      | inl again ↦ absurd (gone (row, (e, inr again)))
      | inr other ↦ ground arith
    ]
    | inr h ↦ absurd (gone (row, (e, inl h)))
  ]

  -- An update succeeds exactly when the worker holds a live lease and the row is there and is not
  -- cancelled, or is to be cancelled again. It then replaces that row and no other. In all other
  -- cases the worker learns that its lease is lost, and the database is as it was.
  pub fenced_update_collection_cases :
      Unique db.leases
      → ((row : CollectionRow)
          → Replaces row
          → HoldsLease db r.collection_id fence.worker_id now
          → (updated.0 ≡ ok tt)
            × (find r.collection_id updated.1.collections ≡ some (overwrite r row))
            × ((k : String)
                → k ≢ r.collection_id
                → find k updated.1.collections ≡ find k db.collections))
        × (¬ HoldsLease db r.collection_id fence.worker_id now → updated ≡ (err lease_lost, db))
        × ((¬ ((row : CollectionRow) × Replaces row)) → updated ≡ (err lease_lost, db))
  fenced_update_collection_cases u = (
    λ row replaces holds.
        let passes =
          test-true row replaces ((has_lease_iff fence r.collection_id now db u).1 holds) in
        (
          ground (arith, updated_lem, replaces.0),
          ground (arith, find-updated r.collection_id row replaces.0 passes, replaces.0),
          λ k ne. find-updated_ne k row replaces.0 passes ne,
        ),
    λ lost. ground (arith, updated_lem, has_lease-false fence r.collection_id now db u lost),
    λ gone. elim (Option-cases (find r.collection_id db.collections)) [
      | inl e ↦ ground (arith, updated_lem)
      | inr (row, e) ↦ ground (arith, updated_lem, not_replaced row e gone)
    ],
  )

  -- An update under a lease, with any exception of the driver: it has replaced the row of the
  -- collection, or it has raised and the database is as it was.
  pub fenced_update_collection-whole :
      (outage : Option StorageError)
      → (((fenced_update_collection (some fence) outage now r db).0 ≡ ok tt)
          × Unique (fenced_update_collection (some fence) outage now r db).1.collections
          × ((row : CollectionRow) × (find r.collection_id
                  (fenced_update_collection (some fence) outage now r db).1.collections
                ≡ some (overwrite r row))))
        ⊎ ((e : StorageError) × (fenced_update_collection (some fence) outage now r db
              ≡ (err e, db)))
  unfolding fenced_update_collection
  fenced_update_collection-whole (some e) =
      inr (storage_failure e, ground (arith, current_lease_fence_self fence r.collection_id mine))
  fenced_update_collection-whole none = elim (Option-cases (find r.collection_id db.collections)) [
    | inl e ↦ inr (lease_lost, ground (arith, updated_lem))
    | inr (row, e) ↦ elim (Bool-cases (test row)) [
      | inl h ↦
          let written : updated ≡ (
            ok tt,
            record db { collections = update_where test (overwrite r) db.collections },
          ) =
            ground (arith, updated_lem) in
          inl (
            ap (λ x. x.0) written,
            subst (λ x. Unique x.1.collections) (sym written)
                (update_where-Unique test (overwrite r) db.collections (overwrite-key r) rows),
            (row, ground (arith, find-updated r.collection_id row e h)),
          )
      | inr h ↦ inr (lease_lost, ground (arith, updated_lem))
    ]
  ]
