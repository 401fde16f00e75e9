-- ===== src/Storage/Retention/Examples.antt =====
-- A pass over a small database.
use argus_web_intelligence.Prelude.{
  true, [], ◌∷◌, some, none, ◌≡◌, refl, inr, inl, arith, String, ℕ, ◌*◌,
}
use argus_web_intelligence.Prelude.Collation.{code_point_le}
use argus_web_intelligence.Sql.{find}
use argus_web_intelligence.Contracts.{queued, completed, is_finished, day}
use argus_web_intelligence.Storage.{
  Database, empty_database, SnapshotRow, KeysHold, CollectionRow_key, SnapshotRow_key,
}
use argus_web_intelligence.Storage.Examples.{collection, stored}
use argus_web_intelligence.Storage.Retention.{RetentionPolicy, run_retention}
use argus_web_intelligence.Storage.Retention.Kept.{run_retention-collection, run_retention-snapshot}

abbrev policy : RetentionPolicy
policy = record {
  idempotency_window_seconds = 60;
  collection_retention_days = 1;
  snapshot_retention_days = 1;
  worker_registration_retention_days = 1;
  result_access_grace_seconds = 60;
  batch_size = 5;
}

abbrev snapshot : String → ℕ → SnapshotRow
snapshot id at = record {
  snapshot_id = id;
  source_url = "https://example.org";
  collected_at = at;
  body = record {
    snapshot_id = id;
    source_id = "s";
    source_url = "https://example.org";
    collected_at = at;
    content_hash = "h";
    extractor_version = "1";
    content_type = none;
    content = "";
    previous_snapshot_id = none;
    diff = none;
  };
}

abbrev small : Database
small = record empty_database {
  collections = stored (collection "c-1" completed 100) ∷ stored (collection "c-2" queued 100) ∷ [];
  snapshots = snapshot "n-1" 100 ∷ snapshot "n-2" 200 ∷ [];
}

small-KeysHold : KeysHold small
unfolding find
small-KeysHold = record {
  collections_unique = (refl, (refl, tt));
  idempotency_unique = tt;
  leases-Unique = tt;
  workers_unique = tt;
}

run_retention-collection_example :
    find "c-2" (run_retention code_point_le true (9 * day) policy small).1.collections
    ≡ some (stored (collection "c-2" queued 100))
unfolding find is_finished
run_retention-collection_example =
    run_retention-collection code_point_le (9 * day) policy small true
      (stored (collection "c-2" queued 100)) "c-2" small-KeysHold refl (inl refl)

run_retention-snapshot_example :
    find "n-2" (run_retention code_point_le true (9 * day) policy small).1.snapshots
    ≡ some (snapshot "n-2" 200)
unfolding find code_point_le
run_retention-snapshot_example =
    run_retention-snapshot code_point_le (9 * day) policy small true (snapshot "n-2" 200) "n-2"
      (refl, (refl, tt)) refl ((λ _. inl (omega arith)), ((λ _. inr (refl, refl)), tt))
