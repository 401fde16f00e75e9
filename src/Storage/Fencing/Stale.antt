-- ===== src/Storage/Fencing/Stale.antt =====
-- A worker whose collection went to another one cannot write to it.
use argus_web_intelligence.Prelude.{
  ℕ, max, String, false, not, List, ◌∷◌, none, some, ◌≡◌, ◌≢◌, arith, All, any, String_eq, ◌==◌,
  subst, refl, if◌then◌else◌,
}
use argus_web_intelligence.Prelude.Action.{err}
use argus_web_intelligence.Sql.{find, Unique}
use argus_web_intelligence.Contracts.{CollectionRecord, Observation, Evidence, Snapshot, second}
use argus_web_intelligence.Storage.{
  Database, CollectionRow_key, LeaseRow_key, lease_lost, value_error, missing_collection,
}
use argus_web_intelligence.Storage.Queue.{take_lease, claimed}
use argus_web_intelligence.Storage.Queue.Taking.{take_lease-claimed}
use argus_web_intelligence.Storage.Queue.Leasing.{HoldsLease}
use argus_web_intelligence.Storage.Queue.History.{takes, Moment, step, HasNoLease, step-Unique}
use argus_web_intelligence.Storage.Fencing.Lapsed.{
  Act, queue, act, act_all, NotClaimedBy, act_all-Unique, act_all-HasNoLease,
}
use argus_web_intelligence.Storage.Fencing.Guards.{has_lease-false, current_lease_fence_self}
use argus_web_intelligence.Storage.Fencing.{
  LeaseFence, fenced_update_collection, add_observation, add_evidence, has_lease, may_write_item,
  storage_failure,
}
use argus_web_intelligence.Storage.Fencing.Writes.{fenced_update_collection_cases}
use argus_web_intelligence.Storage.Fencing.Items.{add_observation_cases}
use argus_web_intelligence.Storage.Commits.{commit_task_success}

taken-HasNoLease :
    (id worker thief : String) (now lease : ℕ) (db : Database)
    → thief ≢ worker
    → (take_lease thief now lease id db).0 ≡ claimed id
    → HasNoLease (take_lease thief now lease id db).1 id worker
taken-HasNoLease id worker thief now lease db ne won l e =
    ground (arith, (take_lease-claimed thief now lease id db won).0)

HasNoLease-not-HoldsLease :
    (db : Database) (id worker : String) (now : ℕ)
    → HasNoLease db id worker
    → ¬ HoldsLease db id worker now
HasNoLease-not-HoldsLease db id worker now h holds = h holds.0 holds.1 holds.2

module _ (fence : LeaseFence) (now : ℕ) (db : Database) (u : Unique db.leases)
    (lost : (id : String) → fence.collection_id ≡ id → ¬ HoldsLease db id fence.worker_id now) where
  unleased : (id : String) → fence.collection_id ≡ id → has_lease fence id now db ≡ false
  unleased id mine = has_lease-false fence id now db u (lost id mine)

  add_evidence-stale :
      (e : Evidence) (id : String)
      → fence.collection_id ≡ id
      → add_evidence (some fence) none now e id db ≡ (err lease_lost, db)
  unfolding add_evidence may_write_item storage_failure
  add_evidence-stale e id mine =
      ground (arith, current_lease_fence_self fence id mine, unleased id mine)

  commit_task_success-stale :
      (r : CollectionRecord) (observations : List Observation) (evidence : List Evidence)
      (snapshots : List Snapshot)
      → fence.collection_id ≡ r.collection_id
      → commit_task_success (some fence) none now r observations evidence snapshots db ≡ (
        err (
            if any (λ (x : Observation). not (x.collection_id == r.collection_id)) observations
            then value_error
            else elim (find r.collection_id db.collections) [
              | none ↦ missing_collection
              | some row ↦ lease_lost
            ]),
        db,
      )
  unfolding commit_task_success storage_failure
  commit_task_success-stale r observations evidence snapshots mine =
      ground
        (arith, current_lease_fence_self fence r.collection_id mine, unleased r.collection_id mine)

-- Once another worker has claimed a collection, the one that had it before can write nothing to it
-- until it claims it again, however much time passes, and whatever anybody calls meanwhile: claims,
-- renewals and releases, updates, observations, evidence, snapshots and task commits, with and
-- without leases, and with any exceptions of the driver. With one row for each collection, its
-- updates, observations and evidence report the loss of the lease. Its task commits report that too,
-- unless an observation is of another collection, a ValueError, or the collection is not there, a
-- RuntimeError. Each of these leaves the database as it is.
pub stale_worker :
    (fence : LeaseFence) (thief : String) (lease : ℕ) (m after : Moment) (acts : List Act)
    (r : CollectionRecord) (o : Observation) (e : Evidence) (observations : List Observation)
    (evidence : List Evidence) (snapshots : List Snapshot)
    → Unique m.db.leases
    → thief ≢ fence.worker_id
    → (take_lease thief m.now (max second lease) fence.collection_id m.db).0
      ≡ claimed fence.collection_id
    → All (NotClaimedBy fence.worker_id fence.collection_id) acts
    → act_all (queue (takes thief lease fence.collection_id) ∷ acts) m ≡ after
    → fence.collection_id ≡ r.collection_id
    → fence.collection_id ≡ o.collection_id
    → Unique after.db.collections
    → (fenced_update_collection (some fence) none after.now r after.db ≡ (err lease_lost, after.db))
      × (add_observation (some fence) none after.now o after.db ≡ (err lease_lost, after.db))
      × (add_evidence (some fence) none after.now e fence.collection_id after.db
          ≡ (err lease_lost, after.db))
      × (commit_task_success (some fence) none after.now r observations evidence snapshots after.db
          ≡ (
            err (
                if any (λ (x : Observation). not (x.collection_id == r.collection_id)) observations
                then value_error
                else elim (find r.collection_id after.db.collections) [
                  | none ↦ missing_collection
                  | some row ↦ lease_lost
                ]),
            after.db,
          ))
unfolding step act act_all
stale_worker fence thief lease m after acts r o e observations evidence snapshots u ne won others
      ends same same_o rows =
    let start = step (takes thief lease fence.collection_id) m in
    let taken =
      taken-HasNoLease fence.collection_id fence.worker_id thief m.now (max second lease) m.db ne
        won in
    let u' = step-Unique (takes thief lease fence.collection_id) m u in
    let lost =
      subst (λ (x : Moment). HasNoLease x.db fence.collection_id fence.worker_id) ends
        (act_all-HasNoLease fence.collection_id fence.worker_id acts start u' others taken) in
    let unique = subst (λ (x : Moment). Unique x.db.leases) ends (act_all-Unique acts start u') in
    let none_at = λ (id : String) (q : fence.collection_id ≡ id).
      subst (λ k. ¬ HoldsLease after.db k fence.worker_id after.now) q
        (HasNoLease-not-HoldsLease after.db fence.collection_id fence.worker_id after.now lost) in
    (
      (fenced_update_collection_cases fence after.now r after.db same rows unique).1
          (none_at r.collection_id same),
      (add_observation_cases fence after.now o after.db same_o unique).1
          (none_at o.collection_id same_o),
      add_evidence-stale fence after.now after.db unique none_at e fence.collection_id refl,
      commit_task_success-stale fence after.now after.db unique none_at r observations evidence
          snapshots same,
    )
