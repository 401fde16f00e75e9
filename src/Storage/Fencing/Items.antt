-- ===== src/Storage/Fencing/Items.antt =====
-- Observations written under a lease.
use argus_web_intelligence.Prelude.{ℕ, String, true, false, none, some, ◌≡◌, ◌≢◌, arith, String_eq}
use argus_web_intelligence.Prelude.Action.{Result, ok, err}
use argus_web_intelligence.Sql.Laws.{find-insert_or_replace_self, find-insert_or_replace_ne}
use argus_web_intelligence.Sql.{find, Unique}
use argus_web_intelligence.Contracts.{Observation}
use argus_web_intelligence.Storage.{
  Database, LeaseRow_key, ItemRow, ItemRow_key, SnapshotRow_key, StorageError, lease_lost,
}
use argus_web_intelligence.Storage.Queue.Leasing.{HoldsLease}
use argus_web_intelligence.Storage.Fencing.{
  LeaseFence, add_observation, storage_failure, may_write_item, is_writable,
}
use argus_web_intelligence.Storage.Fencing.Guards.{
  has_lease_iff, has_lease-false, current_lease_fence_self,
}

module _ (fence : LeaseFence) (now : ℕ) (o : Observation) (db : Database)
    (mine : fence.collection_id ≡ o.collection_id) where
  abbrev added : Result StorageError (Unit {0}) × Database
  added = add_observation (some fence) none now o db

  -- An observation is stored, and found under its identifier, exactly when the collection is there
  -- and not cancelled and the worker holds a live lease. Otherwise the lease is reported as lost and
  -- nothing is written.
  pub add_observation_cases :
      Unique db.leases
      → (is_writable o.collection_id db ≡ true
          → HoldsLease db o.collection_id fence.worker_id now
          → (added.0 ≡ ok tt)
            × (find o.observation_id added.1.observations
                ≡ some (record {
                  item_id = o.observation_id;
                  collection_id = o.collection_id;
                  body = o;
                }))
            × ((k : String)
                → k ≢ o.observation_id
                → find k added.1.observations ≡ find k db.observations))
        × (¬ HoldsLease db o.collection_id fence.worker_id now → added ≡ (err lease_lost, db))
        × (is_writable o.collection_id db ≡ false → added ≡ (err lease_lost, db))
  unfolding add_observation may_write_item storage_failure
  add_observation_cases u =
      let new : ItemRow Observation = record {
        item_id = o.observation_id;
        collection_id = o.collection_id;
        body = o;
      } in
      let fenced = current_lease_fence_self fence o.collection_id mine in
      (
        λ writable holds.
            let granted = (has_lease_iff fence o.collection_id now db u).1 holds in
            (
              ground (arith, fenced),
              ground (arith, fenced, find-insert_or_replace_self new db.observations),
              λ k ne. ground (arith, fenced, find-insert_or_replace_ne new db.observations k ne),
            ),
        λ lost. ground (arith, fenced, has_lease-false fence o.collection_id now db u lost),
        λ closed. ground (arith, fenced),
      )
