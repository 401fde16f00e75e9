-- ===== src/Storage/Admission/Capacity.antt =====
-- The limits on active collections hold after every admission.
use argus_web_intelligence.Prelude.{
  ℕ, ◌≤◌, String, Bool, true, Option, none, some, String_eq, if◌then◌else◌, leb, ◌≡◌, refl, arith,
  inl, inr, suc,
}
use argus_web_intelligence.Prelude.Action.{ok, err, ◌>>=◌}
use argus_web_intelligence.Sql.{find, insert, count_where}
use argus_web_intelligence.Contracts.{CollectionRecord}
use argus_web_intelligence.Storage.{
  Database, CollectionRow, CollectionRow_key, IdempotencyRow_key, queue_capacity, consumer_scope,
  global_scope,
}
use argus_web_intelligence.Storage.Collections.{create_collection}
use argus_web_intelligence.Storage.Admission.{
  is_active_row, is_active_for, forget_stale, idempotent_collection, enforce_queue_capacity,
  insert_mapping, create_collection_idempotent,
}
use argus_web_intelligence.Storage.Admission.Replay.{answer_cases, forget_stale-absent}

abbrev pub active_count : Database → ℕ
active_count db = count_where is_active_row db.collections

abbrev pub active_count_for : String → Database → ℕ
active_count_for consumer db = count_where (is_active_for consumer) db.collections

-- Within a limit, if there is one.
abbrev pub Within : ℕ → Option ℕ → Type 0
Within n none = Unit {0}
Within n (some limit) = n ≤ limit

collections-forget_stale :
    (key : String) (now : ℕ) (window : Option ℕ) (db : Database)
    → (forget_stale key now window db).1.collections ≡ db.collections
unfolding forget_stale
collections-forget_stale key now none db = refl
collections-forget_stale key now (some w) db = refl

count-made :
    (test : CollectionRow → Bool) (r : CollectionRecord) (key request_hash : String)
    (db db' : Database)
    → (create_collection r >>= λ _. insert_mapping key request_hash r) db ≡ (ok tt, db')
    → count_where test db'.collections ≤ suc (count_where test db.collections)
unfolding create_collection insert_mapping insert count_where
count-made test r key request_hash db db' e = ground arith

room_left :
    (consumer : String) (a c : Option ℕ) (db : Database)
    → (enforce_queue_capacity consumer a c db).0 ≡ ok tt
    → Within (suc (active_count db)) a × Within (suc (active_count_for consumer db)) c
unfolding enforce_queue_capacity
room_left consumer none none db e = (tt, tt)
room_left consumer none (some n) db e = (tt, ground arith)
room_left consumer (some m) none db e = (ground arith, tt)
room_left consumer (some m) (some n) db e = (ground arith, ground arith)

Within-mono : (m n : ℕ) (limit : Option ℕ) → m ≤ n → Within n limit → Within m limit
Within-mono m n none h w = tt
Within-mono m n (some limit) h w = omega arith

-- After a collection has been created, the active collections are within the limit over all, and
-- those of its consumer within the limit for one consumer.
pub create_collection_idempotent-Within :
    (now : ℕ) (r body : CollectionRecord) (key request_hash : String) (window a c : Option ℕ)
    (db db' : Database)
    → create_collection_idempotent now r key request_hash window a c db ≡ (ok (body, true), db')
    → Within (active_count db') a × Within (active_count_for r.request.consumer db') c
create_collection_idempotent-Within now r body key request_hash window a c db db' e =
    elim (answer_cases now r body key request_hash window a c db db' true e) [
      | inl (_, _, h) ↦ absurd (ground (arith, h))
      | inr (made, _, _, room) ↦
          let db₁ = (forget_stale key now window db).1 in
          let (all_room, own_room) = room_left r.request.consumer a c db₁ room in
          (
            Within-mono (active_count db') (suc (active_count db₁)) a
                (count-made is_active_row r key request_hash db₁ db' made) all_room,
            Within-mono (active_count_for r.request.consumer db')
                (suc (active_count_for r.request.consumer db₁)) c
                (count-made (is_active_for r.request.consumer) r key request_hash db₁ db' made)
                own_room,
          )
    ]

-- A full queue refuses a request under a key that is not bound, names the limit that was reached,
-- that of the consumer first, and leaves the database as it was.
create_collection_idempotent_full :
    (now : ℕ) (r : CollectionRecord) (key request_hash : String) (window : Option ℕ)
    (limit limit_for_consumer : ℕ) (db : Database)
    → find key db.idempotency ≡ none
    → limit ≤ active_count db
    → create_collection_idempotent now r key request_hash window
        (some limit)
        (some limit_for_consumer)
        db
      ≡ (if leb limit_for_consumer (active_count_for r.request.consumer db)
          then (
            err (
                queue_capacity consumer_scope
                  (active_count_for r.request.consumer db)
                  limit_for_consumer),
            db,
          )
          else (err (queue_capacity global_scope (active_count db) limit), db))
unfolding create_collection_idempotent idempotent_collection enforce_queue_capacity
create_collection_idempotent_full now r key request_hash window limit limit_for_consumer db absent
      full =
    ground (arith, forget_stale-absent key now window db absent)
