-- ===== src/Storage/Admission.antt =====
-- storage/postgres.py and storage/sqlite.py: a collection is admitted once per idempotency key, and
-- on the server only while the queue has room.
pub mod Replay
pub mod Capacity
use argus_web_intelligence.Prelude.{
  ℕ, ◌+◌, ◌*◌, max, String, Bool, true, false, ◌&&◌, ◌||◌, List, ◌∷◌, Option, none, some, String_eq,
  ◌==◌, if◌then◌else◌, leb, any, is_some,
}
use argus_web_intelligence.Prelude.Action.{
  Result, ok, err, pure, raise, ◌>>=◌, ◌>>◌, transaction, settle, continue,
}
use argus_web_intelligence.Sql.{find, insert, count_where, delete_where}
use argus_web_intelligence.Contracts.{CollectionRecord, is_active, second}
use argus_web_intelligence.Storage.{
  Database, CollectionRow, CollectionRow_key, IdempotencyRow, IdempotencyRow_key, Storage,
  StorageError, CapacityScope, idempotency_conflict, missing_collection, queue_capacity,
  unique_violation, consumer_scope, global_scope,
}
use argus_web_intelligence.Storage.Collections.{create_collection}

-- A key whose window is over. `created_at <= now - window` with the subtraction moved over.
abbrev pub is_stale : String → ℕ → ℕ → IdempotencyRow → Bool
is_stale key now window_seconds row =
    row.idempotency_key == key && leb (row.created_at + max 1 window_seconds * second) now

-- DELETE FROM argus.collection_idempotency, where a window is given
unfoldable pub forget_stale : String → ℕ → Option ℕ → Storage (Unit {0})
forget_stale key now none db = (ok tt, db)
forget_stale key now (some window_seconds) db = (
  ok tt,
  record db { idempotency = delete_where (is_stale key now window_seconds) db.idempotency },
)

mapped_body : Option CollectionRow → Storage (Option CollectionRecord)
mapped_body none = raise missing_collection
mapped_body (some row) = pure (some row.body)

mapped : String → Option IdempotencyRow → Storage (Option CollectionRecord)
unfolding mapped_body
mapped request_hash none db = (ok none, db)
mapped request_hash (some m) db =
    if m.request_hash == request_hash
    then mapped_body (find m.collection_id db.collections) db
    else (err idempotency_conflict, db)

-- PostgresRepository._idempotent_collection
unfoldable pub idempotent_collection : String → String → Storage (Option CollectionRecord)
unfolding mapped
idempotent_collection key request_hash db = mapped request_hash (find key db.idempotency) db

-- `status IN ('queued', 'running')`, with the consumer of the body or for all
abbrev pub is_active_row : CollectionRow → Bool
is_active_row row = is_active row.status

abbrev pub is_active_for : String → CollectionRow → Bool
is_active_for consumer row = is_active row.status && row.body.request.consumer == consumer

limit_count : CapacityScope → (CollectionRow → Bool) → Option ℕ → Storage (Unit {0})
limit_count scope test none db = (ok tt, db)
limit_count scope test (some limit) db =
    let current = count_where test db.collections in
    if leb limit current then (err (queue_capacity scope current limit), db) else (ok tt, db)

-- PostgresRepository._enforce_queue_capacity
unfoldable pub enforce_queue_capacity : String → Option ℕ → Option ℕ → Storage (Unit {0})
unfolding limit_count
enforce_queue_capacity consumer max_active_collections max_active_per_consumer = do
  limit_count consumer_scope (is_active_for consumer) max_active_per_consumer
  limit_count global_scope is_active_row max_active_collections

-- INSERT INTO argus.collection_idempotency: the key is primary, the collection unique.
unfoldable pub insert_mapping : String → String → CollectionRecord → Storage (Unit {0})
insert_mapping key request_hash r db =
    let new : IdempotencyRow = record {
      idempotency_key = key;
      collection_id = r.collection_id;
      request_hash = request_hash;
      created_at = r.created_at;
    } in
    if is_some (find key db.idempotency)
      || any (λ row. row.collection_id == r.collection_id) db.idempotency
    then (err unique_violation, db)
    else (ok tt, record db { idempotency = new ∷ db.idempotency })

admit :
    CollectionRecord
    → String
    → String
    → Option ℕ
    → Option ℕ
    → Option CollectionRecord
    → Storage (CollectionRecord × Bool)
admit r key request_hash max_active max_per_consumer (some existing) = pure (existing, false)
admit r key request_hash max_active max_per_consumer none = do
  enforce_queue_capacity r.request.consumer max_active max_per_consumer
  create_collection r
  insert_mapping key request_hash r
  pure (r, true)

-- PostgresRepository.create_collection_idempotent at the transaction's time `now`
unfoldable pub create_collection_idempotent :
    ℕ
    → CollectionRecord
    → String
    → String
    → Option ℕ
    → Option ℕ
    → Option ℕ
    → Storage (CollectionRecord × Bool)
unfolding admit
create_collection_idempotent now r key request_hash window max_active max_per_consumer =
    transaction (do
      forget_stale key now window
      existing ← idempotent_collection key request_hash
      admit r key request_hash max_active max_per_consumer existing)
