-- ===== src/Storage/Examples/Writes.antt =====
-- Writes under a lease, run.
use argus_web_intelligence.Prelude.{
  ◌*◌, List, [], ◌∷◌, none, some, ◌≡◌, refl, arith, eq_iff, All, map, inl,
}
use argus_web_intelligence.Prelude.Action.{ok, err}
use argus_web_intelligence.Sql.{find, upsert, count_where, update_where, Unique}
use argus_web_intelligence.Contracts.Values.{null}
use argus_web_intelligence.Contracts.{Evidence, running, is_cancelled, second, completed}
use argus_web_intelligence.Storage.{
  Database, CollectionRow_key, LeaseRow_key, ItemRow_key, lease_lost, worker_storage, operational,
  driver,
}
use argus_web_intelligence.Storage.Collections.{overwrite, update_collection, accepts_update}
use argus_web_intelligence.Storage.Queue.{take_lease, owns_live}
use argus_web_intelligence.Storage.Queue.History.{takes, waits, Moment, step}
use argus_web_intelligence.Storage.Fencing.{
  fenced_update_collection, add_observation, add_evidence, current_lease_fence, has_lease,
  is_writable,
}
use argus_web_intelligence.Storage.Fencing.Writes.{fenced_update_collection_cases}
use argus_web_intelligence.Storage.Fencing.Items.{add_observation_cases}
use argus_web_intelligence.Storage.Fencing.Lapsed.{Act, queue, commits, updates, act, act_all}
use argus_web_intelligence.Storage.Fencing.Stale.{stale_worker}
use argus_web_intelligence.Storage.Commits.{commit_task_success, observation_row}
use argus_web_intelligence.Storage.Commits.Rows.{IsStored, HasSnapshot}
use argus_web_intelligence.Storage.Commits.Atomic.{
  commit_task_success_cases, commit_task_success-IsStored, commit_task_success_replay, committed,
}
use argus_web_intelligence.Storage.Commits.Interrupted.{commit_task_success_interrupted}
use argus_web_intelligence.Storage.Examples.{collection, stored, leased, lease, fence, observation}

rows-Unique : Unique leased.collections
unfolding find
rows-Unique = (refl, (refl, tt))

leases-Unique : Unique leased.leases
unfolding find
leases-Unique = (refl, tt)

fenced_update_collection_cases_example :
    (fenced_update_collection (some fence) none 100 (collection "c-1" completed 10) leased).0
    ≡ ok tt
unfolding find is_cancelled
fenced_update_collection_cases_example =
    ((fenced_update_collection_cases fence 100 (collection "c-1" completed 10) leased refl
        rows-Unique leases-Unique).0
      (stored (collection "c-1" running 10)) (refl, inl refl)
      (lease "c-1" "w-1" (5 * second), refl, refl, omega arith)).0

add_observation_cases_example :
    (add_observation (some fence) none 100 (observation "o-1") leased).0 ≡ ok tt
unfolding find is_writable is_cancelled
add_observation_cases_example =
    ((add_observation_cases fence 100 (observation "o-1") leased refl leases-Unique).0 refl
      (lease "c-1" "w-1" (5 * second), refl, refl, omega arith)).0

commit_task_success_interrupted_example :
    commit_task_success
      (some fence)
      (some (record { statements = 3; error = driver operational }))
      100
      (collection "c-1" running 10)
      (observation "o-1" ∷ [])
      []
      []
      leased
    ≡ (err worker_storage, leased)
unfolding find is_cancelled
commit_task_success_interrupted_example =
    (commit_task_success_interrupted fence (collection "c-1" running 10) (observation "o-1" ∷ []) []
        [] refl 3 operational 100 leased leases-Unique).1
      (stored (collection "c-1" running 10)) refl (refl, refl)
      (lease "c-1" "w-1" (5 * second), refl, refl, omega arith)

commit_task_success_cases_example :
    commit_task_success
      (some fence)
      none
      100
      (collection "c-1" running 10)
      (observation "o-1" ∷ [])
      []
      []
      leased
    ≡ (
      ok tt,
      committed fence (collection "c-1" running 10) (observation "o-1" ∷ []) [] [] refl leased,
    )
unfolding find is_cancelled
commit_task_success_cases_example =
    (commit_task_success_cases fence (collection "c-1" running 10) (observation "o-1" ∷ []) [] []
        refl 100 leased rows-Unique leases-Unique).0
      (stored (collection "c-1" running 10)) refl (refl, refl)
      (lease "c-1" "w-1" (5 * second), refl, refl, omega arith)

abbrev after_commit : Database
after_commit =
    (commit_task_success (some fence) none 100 (collection "c-1" running 10)
      (observation "o-1" ∷ []) [] [] leased).1

commit_task_success_stored_example :
    (find "c-1" after_commit.collections
      ≡ some (overwrite (collection "c-1" running 10) (stored (collection "c-1" running 10))))
    × All
        (IsStored after_commit.observations)
        (map (observation_row "c-1") (observation "o-1" ∷ []))
    × All (IsStored after_commit.evidence) []
    × All (HasSnapshot after_commit.snapshots) []
unfolding find is_cancelled has_lease owns_live
commit_task_success_stored_example =
    commit_task_success-IsStored fence (collection "c-1" running 10) (observation "o-1" ∷ []) [] []
      refl 100 leased (stored (collection "c-1" running 10)) rows-Unique (refl, tt) tt refl
      (refl, refl) refl

commit_task_success_replay_example :
    commit_task_success
      (some fence)
      none
      200
      (collection "c-1" running 10)
      (observation "o-1" ∷ [])
      []
      []
      after_commit
    ≡ (ok tt, after_commit)
unfolding find is_cancelled has_lease owns_live commit_task_success current_lease_fence count_where
commit_task_success_replay_example =
    commit_task_success_replay fence (collection "c-1" running 10) (observation "o-1" ∷ []) [] []
      refl 100 200 leased (stored (collection "c-1" running 10)) rows-Unique (refl, tt) tt refl
      (refl, refl) refl refl refl

abbrev expired : Moment
expired = record { now = 6 * second; db = leased }

abbrev quote : Evidence
quote = record {
  evidence_id = "e-1";
  observation_id = some "o-1";
  type = "quote";
  text = "text";
  source = record {
    provider = "generic_web";
    url = "https://example.org/";
    collected_at = 0;
    source_id = none;
  };
  metadata = null;
}

-- w-2 takes c-1 when the lease of w-1 has run out and commits a task, its own lease runs out too, and
-- the API updates the record.
abbrev meanwhile : List Act
meanwhile =
    commits (some (record { collection_id = "c-1"; worker_id = "w-2" })) none
      (collection "c-1" running 10) (observation "o-2" ∷ []) [] []
    ∷ queue (waits (9 * second))
    ∷ updates none none (collection "c-1" running 10)
    ∷ []

abbrev afterwards : Moment
afterwards = act_all (queue (takes "w-2" second "c-1") ∷ meanwhile) expired

stale_worker_example :
    (fenced_update_collection
        (some fence)
        none
        afterwards.now
        (collection "c-1" completed 10)
        afterwards.db
      ≡ (err lease_lost, afterwards.db))
    × (add_observation (some fence) none afterwards.now (observation "o-1") afterwards.db
        ≡ (err lease_lost, afterwards.db))
    × (add_evidence (some fence) none afterwards.now quote "c-1" afterwards.db
        ≡ (err lease_lost, afterwards.db))
    × (commit_task_success
          (some fence)
          none
          afterwards.now
          (collection "c-1" completed 10)
          []
          []
          []
          afterwards.db
        ≡ (err lease_lost, afterwards.db))
unfolding find act act_all step take_lease upsert is_cancelled commit_task_success
    current_lease_fence fenced_update_collection count_where has_lease owns_live overwrite
    update_where update_collection accepts_update
stale_worker_example =
    stale_worker fence "w-2" second expired afterwards meanwhile (collection "c-1" completed 10)
      (observation "o-1") quote [] [] [] leases-Unique (ground (arith, eq_iff "w-2" "w-1")) refl
      (tt, (tt, (tt, tt))) refl refl refl rows-Unique
