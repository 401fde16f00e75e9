-- ===== src/Storage/Retention/Kept.antt =====
-- What a pass deletes at most, and what it never deletes.
use argus_web_intelligence.Prelude.{
  ℕ, ◌+◌, ◌*◌, ◌≤◌, ◌<◌, max, String, Bool, true, false, ◌&&◌, List, [], ◌∷◌, some, String_eq, ◌==◌,
  ◌≡◌, refl, arith, eq_iff, ◌⊎◌, inl, inr, Bool-cases, All, subst, any,
}
use argus_web_intelligence.Prelude.Action.{ok}
use argus_web_intelligence.Sql.{find, Unique}
use argus_web_intelligence.Contracts.{is_finished, day, second}
use argus_web_intelligence.Storage.{
  Database, AccessRow, CollectionRow, CollectionRow_key, IdempotencyRow_key, WorkerRow_key,
  SnapshotRow, SnapshotRow_key, KeysHold,
}
use argus_web_intelligence.Storage.Retention.{
  RetentionPolicy, RetentionResult, clamped, run_retention, delete_old, is_old_collection,
  is_old_snapshot, was_read, is_newer, stale_keys, old_collections, old_snapshots, idle_workers,
  cascade,
}
use argus_web_intelligence.Storage.Retention.Batches.{count_targets-le, find-targets}

module _ (text_le : String → String → Bool) (now : ℕ) (p : RetentionPolicy) (db : Database) where
  abbrev WithinBatch : RetentionResult → Type 0
  WithinBatch r =
      (r.idempotency_deleted ≤ max 1 p.batch_size)
      × (r.collections_deleted ≤ max 1 p.batch_size)
      × (r.snapshots_deleted ≤ max 1 p.batch_size)
      × (r.workers_deleted ≤ max 1 p.batch_size)

  -- A pass deletes at most a batch of keys, of collections, of snapshots and of workers each.
  run_retention_bounds :
      (acquired : Bool) (r : RetentionResult)
      → KeysHold db
      → Unique db.snapshots
      → (run_retention text_le acquired now p db).0 ≡ ok r
      → WithinBatch r
  unfolding run_retention delete_old clamped stale_keys old_collections old_snapshots idle_workers
      cascade
  run_retention_bounds false r keys u e = ground (arith, e)
  run_retention_bounds true r keys u e =
      let same : (delete_old text_le now (clamped p) db).0 ≡ r = cc in
      subst WithinBatch same (
        count_targets-le _ _ _ db.idempotency keys.idempotency_unique,
        count_targets-le _ _ _ db.collections keys.collections_unique,
        count_targets-le _ _ _ db.snapshots u,
        count_targets-le _ _ _ db.workers keys.workers_unique,
      )

  -- The entry is no reading of this collection, or one before the grace time.
  abbrev pub ReadBefore : ℕ → CollectionRow → AccessRow → Type 0
  ReadBefore grace_seconds row a =
      a.collection_id ≡ row.collection_id → a.last_accessed_at + grace_seconds * second < now

  unread :
      (grace_seconds : ℕ) (row : CollectionRow) (access : List AccessRow)
      → was_read now grace_seconds access row ≡ false
      → All (ReadBefore grace_seconds row) access
  unfolding was_read
  unread grace_seconds row [] h = tt
  unread grace_seconds row (a ∷ rest) h = (
    λ same. ground (arith, h, eq_iff a.collection_id row.collection_id),
    unread grace_seconds row rest (ground (arith, h)),
  )

  -- A collection that is not finished, or was written within the retention time, or has been read
  -- within the grace time.
  abbrev pub Protected : CollectionRow → Type 0
  Protected row =
      (is_finished row.status ≡ false)
      ⊎ ((now < row.updated_at + max 1 p.collection_retention_days * day)
          ⊎ (¬ All (ReadBefore (max 60 p.result_access_grace_seconds) row) db.access))

  Protected-stays :
      (row : CollectionRow)
      → Protected row
      → is_old_collection now
          (max 1 p.collection_retention_days)
          (max 60 p.result_access_grace_seconds)
          db.access
          row
        ≡ false
  unfolding is_old_collection
  Protected-stays row (inl h) = ground (arith, h)
  Protected-stays row (inr (inl h)) = ground (arith, h)
  Protected-stays row (inr (inr h)) =
      let grace_seconds = max 60 p.result_access_grace_seconds in
      elim (Bool-cases (was_read now grace_seconds db.access row)) [
        | inl read ↦ ground (arith, read)
        | inr never ↦ absurd (h (unread grace_seconds row db.access never))
      ]

  -- A pass deletes no collection that is queued or running, that was written within the retention
  -- time, or whose results were read within the grace time.
  pub run_retention-collection :
      (acquired : Bool) (row : CollectionRow) (id : String)
      → KeysHold db
      → find id db.collections ≡ some row
      → Protected row
      → find id (run_retention text_le acquired now p db).1.collections ≡ some row
  unfolding run_retention delete_old clamped stale_keys old_collections cascade
  run_retention-collection false row id keys e h = e
  run_retention-collection true row id keys e h =
      find-targets _ _ _ db.collections keys.collections_unique id row e (Protected-stays row h)

  -- Of one source, the other snapshot is older, or of the same time and not after it by identifier.
  abbrev pub NotAfter : SnapshotRow → SnapshotRow → Type 0
  NotAfter s other =
      other.source_url ≡ s.source_url
      → (other.collected_at < s.collected_at)
        ⊎ ((other.collected_at ≡ s.collected_at) × (text_le other.snapshot_id s.snapshot_id ≡ true))

  -- No stored snapshot of its source comes after it.
  abbrev pub IsLast : SnapshotRow → Type 0
  IsLast s = All (NotAfter s) db.snapshots

  is_newer-false :
      (s other : SnapshotRow)
      → (other.collected_at < s.collected_at)
        ⊎ ((other.collected_at ≡ s.collected_at) × (text_le other.snapshot_id s.snapshot_id ≡ true))
      → is_newer text_le other s ≡ false
  unfolding is_newer
  is_newer-false s other h = ground (arith, h)

  none_newer :
      (s : SnapshotRow) (rows : List SnapshotRow)
      → All (NotAfter s) rows
      → any
          (λ (other : SnapshotRow). other.source_url == s.source_url && is_newer text_le other s)
          rows
        ≡ false
  none_newer s [] h = refl
  none_newer s (x ∷ xs) (h, hs) = elim (Bool-cases (x.source_url == s.source_url)) [
    | inl same ↦
        let older = is_newer-false s x (h ((eq_iff x.source_url s.source_url).0 same)) in
        rw (same, older) (none_newer s xs hs)
    | inr other ↦ rw other (none_newer s xs hs)
  ]

  newest-stays :
      (s : SnapshotRow)
      → IsLast s
      → is_old_snapshot text_le now (clamped p).snapshot_retention_days db.snapshots s ≡ false
  unfolding is_old_snapshot
  newest-stays s h = ground (arith, none_newer s db.snapshots h)

  -- A pass deletes no snapshot that is the newest of its source: each other stored one of that source
  -- was collected before it, or at the same time and does not come after it by identifier.
  pub run_retention-snapshot :
      (acquired : Bool) (s : SnapshotRow) (id : String)
      → Unique db.snapshots
      → find id db.snapshots ≡ some s
      → IsLast s
      → find id (run_retention text_le acquired now p db).1.snapshots ≡ some s
  unfolding run_retention delete_old clamped stale_keys old_collections old_snapshots cascade
  run_retention-snapshot false s id u e h = e
  run_retention-snapshot true s id u e h =
      find-targets _ _ _ db.snapshots u id s e (newest-stays s h)
