-- ===== src/Orchestrator/Lifecycle/Cancelled.antt =====
-- A collection that has been cancelled through the API stays cancelled, whatever its worker does.
use argus_web_intelligence.Prelude.{
  ℕ, String, Bool, true, false, not, List, Option, none, some, String_eq, ◌==◌, ◌≡◌, refl, arith,
  eq_iff, ap, sym, subst, ◌∙◌, any, false≢true, inl, inr, ◌⊎◌,
}
use mathlib.Core.Option.{some-injective}
use argus_web_intelligence.Prelude.Action.{Result, ok, err}
use argus_web_intelligence.Sql.{find, Unique, update_where}
use argus_web_intelligence.Sql.Laws.{find-update_where, update_where-Unique}
use argus_web_intelligence.Contracts.{
  CollectionRecord, Observation, Evidence, Snapshot, is_cancelled, is_finished,
}
use argus_web_intelligence.Storage.{
  Database, CollectionRow, CollectionRow_key, LeaseRow_key, StorageError, lease_lost,
}
use argus_web_intelligence.Storage.Collections.{
  get_collection as read_row, update_collection as write_row, overwrite, accepts_update, IsFaithful,
}
use argus_web_intelligence.Storage.Fencing.{LeaseFence, fenced_update_collection}
use argus_web_intelligence.Storage.Fencing.Writes.{fenced_update_collection_cases}
use argus_web_intelligence.Storage.Commits.{commit_task_success}
use argus_web_intelligence.Storage.Commits.Atomic.{commit_task_success_cases}
use argus_web_intelligence.Storage.Reads.{list_observations}
use argus_web_intelligence.Orchestrator.{Repository}
use argus_web_intelligence.Orchestrator.Lifecycle.{
  cancel, cancelled_at, cancel_found, cancel_stored,
}

-- The repository of the API, whose calls have no lease: PostgresRepository.
unfoldable pub api_repository : (String → String → Bool) → Repository Database StorageError
api_repository text_le = record {
  get_collection = read_row;
  update_collection = write_row;
  commit_task_success = λ r o e n. commit_task_success none none 0 r o e n;
  list_observations = λ id. list_observations text_le none none id;
}

module _ (text_le : String → String → Bool) (now : ℕ) (id : String) (db : Database)
    (row : CollectionRow) (unique : Unique db.collections)
    (here : find id db.collections ≡ some row) (faithful : IsFaithful row) where
  after : Result StorageError (Option CollectionRecord) × Database
  after = cancel (api_repository text_le) now id db

  -- The record that is written
  abbrev closed : CollectionRecord
  closed = cancelled_at now row.body

  abbrev written : Database
  written = record db {
    collections = update_where (accepts_update closed) (overwrite closed) db.collections;
  }

  body_finished : (b : Bool) → is_finished row.status ≡ b → is_finished row.body.status ≡ b
  body_finished b h = ap is_finished (sym faithful.same_status) ∙ h

  cancel-open : is_finished row.status ≡ false → after ≡ (ok (some closed), written)
  unfolding after cancel api_repository read_row write_row cancel_found cancel_stored
  cancel-open h = rw (here, body_finished false h) refl

  cancel-closed : is_finished row.status ≡ true → after ≡ (ok (some row.body), db)
  unfolding after cancel api_repository read_row write_row cancel_found cancel_stored
  cancel-closed h = rw (here, body_finished true h) refl

  accepted : accepts_update closed row ≡ true
  unfolding accepts_update cancelled_at is_cancelled
  accepted =
      let same = faithful.same_id in
      ground (arith, same, eq_iff row.collection_id row.body.collection_id)

  find-written : find id written.collections ≡ some (overwrite closed row)
  unfolding overwrite
  find-written = ground (
    arith,
    here,
    accepted,
    find-update_where (accepts_update closed) (overwrite closed) db.collections id (λ r. refl)
        unique,
  )

  written-Unique : Unique written.collections
  unfolding overwrite
  written-Unique =
      update_where-Unique (accepts_update closed) (overwrite closed) db.collections (λ r. refl)
        unique

  -- What becomes of the writes of a worker to the collection, in a database
  pub record Refuses (d : Database) : Type 0 where
    pub commits :
        (fence : LeaseFence) (at : ℕ) (r : CollectionRecord) (observations : List Observation)
        (evidence : List Evidence) (snapshots : List Snapshot)
        → fence.collection_id ≡ r.collection_id
        → r.collection_id ≡ id
        → any (λ (o : Observation). not (o.collection_id == r.collection_id)) observations ≡ false
        → commit_task_success (some fence) none at r observations evidence snapshots d
          ≡ (err lease_lost, d)
    pub updates :
        (fence : LeaseFence) (at : ℕ) (r : CollectionRecord)
        → fence.collection_id ≡ r.collection_id
        → r.collection_id ≡ id
        → is_cancelled r.status ≡ false
        → fenced_update_collection (some fence) none at r d ≡ (err lease_lost, d)

  not_replaced :
      (r : CollectionRecord)
      → find r.collection_id written.collections ≡ some (overwrite closed row)
      → is_cancelled r.status ≡ false
      → ¬ (
          (x : CollectionRow) × ((find r.collection_id written.collections ≡ some x)
            × ((is_cancelled x.status ≡ false) ⊎ (is_cancelled r.status ≡ true))))
  unfolding overwrite cancelled_at is_cancelled
  not_replaced r e h (x, (f, inl o)) =
      let same : overwrite closed row ≡ x = some-injective (overwrite closed row) x (sym e ∙ f) in
      let c = ap (λ (k : CollectionRow). is_cancelled k.status) same in
      absurd (false≢true (sym o ∙ sym c))
  not_replaced r e h (x, (f, inr c)) = absurd (false≢true (sym h ∙ c))

  written-Refuses : Unique db.leases → Refuses written
  unfolding overwrite cancelled_at is_cancelled
  written-Refuses leases = record {
    commits = λ fence at r os es ns mine e belong.
        (commit_task_success_cases fence r os es ns mine at written written-Unique leases).2
          (overwrite closed row) belong (ap (λ k. find k written.collections) e ∙ find-written)
          refl;
    updates = λ fence at r mine e h.
        (fenced_update_collection_cases fence at r written mine written-Unique leases).2
          (not_replaced r (ap (λ k. find k written.collections) e ∙ find-written) h);
  }

  -- A cancellation of a collection that is finished leaves it and returns its record. Any other is
  -- stored as cancelled, and from then on each task commit of a worker to it, and each update that
  -- does not cancel it, is answered with the loss of the lease, even if the lease is live, and
  -- leaves the database as it is.
  pub cancel_cases :
      Unique db.leases
      → (is_finished row.status ≡ true
          → cancel (api_repository text_le) now id db ≡ (ok (some row.body), db))
        × (is_finished row.status ≡ false
            → ((cancel (api_repository text_le) now id db).0 ≡ ok (some closed))
              × (find id (cancel (api_repository text_le) now id db).1.collections
                  ≡ some (overwrite closed row))
              × Refuses (cancel (api_repository text_le) now id db).1)
  unfolding after
  cancel_cases leases = (
    cancel-closed,
    λ h.
        subst
          (λ x.
            (x.0 ≡ ok (some closed))
            × (find id x.1.collections ≡ some (overwrite closed row))
            × Refuses x.1)
          (sym (cancel-open h)) (refl, find-written, written-Refuses leases),
  )
