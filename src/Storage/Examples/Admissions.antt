-- ===== src/Storage/Examples/Admissions.antt =====
-- Requests under idempotency keys, run.
use argus_web_intelligence.Prelude.{true, false, [], ◌∷◌, none, some, ◌≡◌, refl, arith, eq_iff}
use argus_web_intelligence.Prelude.Action.{ok, err}
use argus_web_intelligence.Sql.{find, insert, count_where, delete_where}
use argus_web_intelligence.Contracts.{queued}
use argus_web_intelligence.Storage.{
  Database, IdempotencyRow_key, empty_database, idempotency_conflict,
}
use argus_web_intelligence.Storage.Collections.{create_collection}
use argus_web_intelligence.Storage.Admission.{
  create_collection_idempotent, forget_stale, idempotent_collection, enforce_queue_capacity,
  insert_mapping,
}
use argus_web_intelligence.Storage.Admission.Replay.{
  IsBound, create_collection_idempotent_retry, create_collection_idempotent-conflict,
}
use argus_web_intelligence.Storage.Admission.Capacity.{
  create_collection_idempotent-Within, active_count, active_count_for, Within,
}
use argus_web_intelligence.Storage.Examples.{collection, stored}

abbrev first_answer : Database
first_answer =
    (create_collection_idempotent 100 (collection "c-1" queued 100) "key" "hash" (some 60) (some 1)
      none empty_database).1

first_created :
    create_collection_idempotent 100
      (collection "c-1" queued 100)
      "key"
      "hash"
      (some 60)
      (some 1)
      none
      empty_database
    ≡ (ok (collection "c-1" queued 100, true), first_answer)
unfolding create_collection_idempotent forget_stale idempotent_collection enforce_queue_capacity
    insert_mapping create_collection insert find count_where delete_where
first_created = refl

create_collection_idempotent_retry_example :
    create_collection_idempotent 200
      (collection "c-9" queued 200)
      "key"
      "hash"
      (some 60)
      (some 1)
      none
      first_answer
    ≡ (ok (collection "c-1" queued 100, false), first_answer)
create_collection_idempotent_retry_example =
    create_collection_idempotent_retry 100 200 (collection "c-1" queued 100)
      (collection "c-9" queued 200) (collection "c-1" queued 100) "key" "hash" (some 60) (some 60)
      (some 1) (some 1) none none empty_database first_answer tt first_created (omega arith)

abbrev bound_database : Database
bound_database = record empty_database {
  collections = stored (collection "c-1" queued 100) ∷ [];
  idempotency =
      record {
        idempotency_key = "key";
        collection_id = "c-1";
        request_hash = "hash";
        created_at = 100;
      }
      ∷ [];
}

bound : IsBound bound_database "key" "hash" (collection "c-1" queued 100)
unfolding find
bound = record {
  mapping = record {
    idempotency_key = "key";
    collection_id = "c-1";
    request_hash = "hash";
    created_at = 100;
  };
  found = refl;
  same_request = refl;
  row = stored (collection "c-1" queued 100);
  stored_row = refl;
  same_body = refl;
}

create_collection_idempotent-conflict_example :
    create_collection_idempotent 200
      (collection "c-9" queued 200)
      "key"
      "other"
      (some 60)
      none
      none
      bound_database
    ≡ (err idempotency_conflict, bound_database)
unfolding bound find
create_collection_idempotent-conflict_example =
    create_collection_idempotent-conflict 200 (collection "c-9" queued 200)
      (collection "c-1" queued 100) "key" "hash" "other" (some 60) none none bound_database bound
      (refl, tt) (omega arith) (ground (arith, eq_iff "other" "hash"))

create_collection_idempotent-Within_example :
    Within (active_count first_answer) (some 1) × Within (active_count_for "test" first_answer) none
create_collection_idempotent-Within_example =
    create_collection_idempotent-Within 100 (collection "c-1" queued 100)
      (collection "c-1" queued 100) "key" "hash" (some 60) (some 1) none empty_database first_answer
      first_created
