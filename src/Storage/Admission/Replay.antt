-- ===== src/Storage/Admission/Replay.antt =====
-- A request that is sent again under its idempotency key gets the collection it got before.
use argus_web_intelligence.Prelude.{
  ℕ, ◌+◌, ◌*◌, ◌<◌, max, String, Bool, true, false, List, [], ◌∷◌, Option, none, some, String_eq,
  ◌==◌, ◌≡◌, ◌≢◌, refl, arith, eq_iff, eq_refl, Option-cases, Bool-cases, false≢true, inl, inr, ◌⊎◌,
  sym, subst,
}
use argus_web_intelligence.Prelude.Action.{ok, err, ◌>>=◌}
use argus_web_intelligence.Sql.{find, insert, delete_where, Unique}
use argus_web_intelligence.Sql.Laws.{delete_where-Unique}
use argus_web_intelligence.Contracts.{CollectionRecord, second}
use argus_web_intelligence.Storage.{
  Database, CollectionRow, CollectionRow_key, IdempotencyRow, IdempotencyRow_key,
  idempotency_conflict,
}
use argus_web_intelligence.Storage.Collections.{create_collection, row_of}
use argus_web_intelligence.Storage.Admission.{
  is_stale, forget_stale, idempotent_collection, enforce_queue_capacity, insert_mapping,
  create_collection_idempotent,
}

-- The key is bound to this request, and its collection has this body.
pub record IsBound (db : Database) (key request_hash : String) (body : CollectionRecord)
    : Type 0 where
  pub mapping : IdempotencyRow
  pub found : find key db.idempotency ≡ some mapping
  pub same_request : mapping.request_hash ≡ request_hash
  pub row : CollectionRow
  pub stored_row : find mapping.collection_id db.collections ≡ some row
  pub same_body : row.body ≡ body

-- The window of a key that was bound at `created_at`, if one is given, is not over at `now`.
abbrev pub IsRecent : ℕ → ℕ → Option ℕ → Type 0
IsRecent created_at now none = Unit {0}
IsRecent created_at now (some window_seconds) = now < created_at + max 1 window_seconds * second

module _ (key : String) (now window_seconds : ℕ) where
  delete_stale-absent :
      (rows : List IdempotencyRow)
      → find key rows ≡ none
      → delete_where (is_stale key now window_seconds) rows ≡ rows
  unfolding find delete_where
  delete_stale-absent [] e = refl
  delete_stale-absent (r ∷ rs) e = ground (arith, delete_stale-absent rs)

  delete_stale-recent :
      (rows : List IdempotencyRow) (m : IdempotencyRow)
      → Unique rows
      → find key rows ≡ some m
      → IsRecent m.created_at now (some window_seconds)
      → delete_where (is_stale key now window_seconds) rows ≡ rows
  unfolding find delete_where
  delete_stale-recent [] m u e fresh = refl
  delete_stale-recent (r ∷ rs) m u e fresh = elim (Bool-cases (r.idempotency_key == key)) [
    | inl same ↦ ground (arith, eq_iff r.idempotency_key key, delete_stale-absent rs)
    | inr other ↦ ground (arith, delete_stale-recent rs m u.1)
  ]

forget_stale-recent :
    (key : String) (now : ℕ) (window : Option ℕ) (db : Database) (m : IdempotencyRow)
    → Unique db.idempotency
    → find key db.idempotency ≡ some m
    → IsRecent m.created_at now window
    → forget_stale key now window db ≡ (ok tt, db)
unfolding forget_stale
forget_stale-recent key now none db m u e fresh = refl
forget_stale-recent key now (some w) db m u e fresh =
    ground (arith, delete_stale-recent key now w db.idempotency m u e)

pub forget_stale-absent :
    (key : String) (now : ℕ) (window : Option ℕ) (db : Database)
    → find key db.idempotency ≡ none
    → forget_stale key now window db ≡ (ok tt, db)
unfolding forget_stale
forget_stale-absent key now none db e = refl
forget_stale-absent key now (some w) db e =
    ground (arith, delete_stale-absent key now w db.idempotency e)

-- A second request under a key that is bound and whose window is not over creates nothing and
-- returns the stored collection, whatever the limits on the queue are.
pub create_collection_idempotent-bound :
    (now : ℕ) (r body : CollectionRecord) (key request_hash : String) (window a c : Option ℕ)
    (db : Database) (b : IsBound db key request_hash body)
    → Unique db.idempotency
    → IsRecent b.mapping.created_at now window
    → create_collection_idempotent now r key request_hash window a c db ≡ (ok (body, false), db)
unfolding create_collection_idempotent idempotent_collection
create_collection_idempotent-bound now r body key request_hash window a c db b u fresh = ground (
  arith,
  forget_stale-recent key now window db b.mapping u b.found fresh,
  eq_iff b.mapping.request_hash request_hash,
)

-- The same key with another request is a conflict, and the database is left as it was.
pub create_collection_idempotent-conflict :
    (now : ℕ) (r body : CollectionRecord) (key request_hash other : String) (window a c : Option ℕ)
    (db : Database) (b : IsBound db key request_hash body)
    → Unique db.idempotency
    → IsRecent b.mapping.created_at now window
    → other ≢ request_hash
    → create_collection_idempotent now r key other window a c db ≡ (err idempotency_conflict, db)
unfolding create_collection_idempotent idempotent_collection
create_collection_idempotent-conflict now r body key request_hash other window a c db b u fresh ne =
    ground (
      arith,
      forget_stale-recent key now window db b.mapping u b.found fresh,
      eq_iff b.mapping.request_hash other,
    )

forget_stale-ok :
    (key : String) (now : ℕ) (window : Option ℕ) (db : Database)
    → forget_stale key now window db ≡ (ok tt, (forget_stale key now window db).1)
unfolding forget_stale
forget_stale-ok key now none db = refl
forget_stale-ok key now (some w) db = refl

-- A look-up of a bound key writes nothing.
idempotent_collection-same :
    (key request_hash : String) (db : Database) → (idempotent_collection key request_hash db).1 ≡ db
unfolding idempotent_collection
idempotent_collection-same key request_hash db = ground arith

idempotent_collection-some :
    (key request_hash : String) (db : Database) (body : CollectionRecord)
    → (idempotent_collection key request_hash db).0 ≡ ok (some body)
    → IsBound db key request_hash body
unfolding idempotent_collection
idempotent_collection-some key request_hash db body e =
    elim (Option-cases (find key db.idempotency)) [
      | inl h ↦ absurd (ground (arith, h))
      | inr (m, h) ↦ elim (Option-cases (find m.collection_id db.collections)) [
        | inl k ↦ absurd (ground (arith, h, k))
        | inr (row, k) ↦ record {
          mapping = m;
          found = h;
          same_request = ground (arith, eq_iff m.request_hash request_hash);
          row = row;
          stored_row = k;
          same_body = ground arith;
        }
      ]
    ]

created-IsBound :
    (r : CollectionRecord) (key request_hash : String) (db db' : Database)
    → (create_collection r >>= λ _. insert_mapping key request_hash r) db ≡ (ok tt, db')
    → IsBound db' key request_hash r
unfolding create_collection insert_mapping insert find
created-IsBound r key request_hash db db' e = record {
  mapping = record {
    idempotency_key = key;
    collection_id = r.collection_id;
    request_hash = request_hash;
    created_at = r.created_at;
  };
  found = ground (arith, eq_refl key);
  same_request = refl;
  row = row_of r;
  stored_row = ground (arith, eq_refl r.collection_id);
  same_body = refl;
}

enforce_queue_capacity-same :
    (consumer : String) (a c : Option ℕ) (db : Database)
    → (enforce_queue_capacity consumer a c db).1 ≡ db
unfolding enforce_queue_capacity
enforce_queue_capacity-same consumer a c db = ground arith

-- What a successful answer was made from: a bound key, or a new row and a new mapping.
pub answer_cases :
    (now : ℕ) (r body : CollectionRecord) (key request_hash : String) (window a c : Option ℕ)
    (db db' : Database) (created : Bool)
    → create_collection_idempotent now r key request_hash window a c db ≡ (ok (body, created), db')
    → (((idempotent_collection key request_hash db').0 ≡ ok (some body))
        × (db' ≡ (forget_stale key now window db).1)
        × (created ≡ false))
      ⊎ (((create_collection r >>= λ _. insert_mapping key request_hash r)
              (forget_stale key now window db).1
            ≡ (ok tt, db'))
          × (body ≡ r)
          × (created ≡ true)
          × ((enforce_queue_capacity r.request.consumer a c (forget_stale key now window db).1).0
              ≡ ok tt))
unfolding create_collection_idempotent
answer_cases now r body key request_hash window a c db db' created e =
    let db₁ = (forget_stale key now window db).1 in
    ground (
      arith,
      forget_stale-ok key now window db,
      idempotent_collection-same key request_hash db₁,
      enforce_queue_capacity-same r.request.consumer a c db₁,
    )

-- Whoever gets an answer under a key leaves the key bound to the request and to that answer.
pub create_collection_idempotent-IsBound :
    (now : ℕ) (r body : CollectionRecord) (key request_hash : String) (window a c : Option ℕ)
    (db db' : Database) (created : Bool)
    → create_collection_idempotent now r key request_hash window a c db ≡ (ok (body, created), db')
    → IsBound db' key request_hash body
create_collection_idempotent-IsBound now r body key request_hash window a c db db' created e =
    elim (answer_cases now r body key request_hash window a c db db' created e) [
      | inl (found, _, _) ↦ idempotent_collection-some key request_hash db' body found
      | inr (made, same, _, _) ↦
          subst (IsBound db' key request_hash) (sym same)
            (created-IsBound r key request_hash (forget_stale key now window db).1 db' made)
    ]

insert_mapping-Unique :
    (r : CollectionRecord) (key request_hash : String) (db db' : Database)
    → Unique db.idempotency
    → (create_collection r >>= λ _. insert_mapping key request_hash r) db ≡ (ok tt, db')
    → Unique db'.idempotency
unfolding create_collection insert_mapping insert
insert_mapping-Unique r key request_hash db db' u e = ground arith

forget_stale-Unique :
    (key : String) (now : ℕ) (window : Option ℕ) (db : Database)
    → Unique db.idempotency
    → Unique (forget_stale key now window db).1.idempotency
unfolding forget_stale
forget_stale-Unique key now none db u = u
forget_stale-Unique key now (some w) db u =
    delete_where-Unique (is_stale key now w) db.idempotency u

-- After a request has created a collection, every request with the same key and hash gets that
-- collection and creates nothing, until the window over the key ends: whatever record it brings,
-- and whatever the limits on the queue are by then.
pub create_collection_idempotent_retry :
    (now later : ℕ) (r retried body : CollectionRecord) (key request_hash : String)
    (window window' a a' c c' : Option ℕ) (db db' : Database)
    → Unique db.idempotency
    → create_collection_idempotent now r key request_hash window a c db ≡ (ok (body, true), db')
    → IsRecent r.created_at later window'
    → create_collection_idempotent later retried key request_hash window' a' c' db'
      ≡ (ok (body, false), db')
create_collection_idempotent_retry now later r retried body key request_hash window window' a a' c
      c' db db' u e fresh =
    elim (answer_cases now r body key request_hash window a c db db' true e) [
      | inl (_, _, h) ↦ absurd (false≢true (sym h))
      | inr (made, same, _, _) ↦
          let db₁ = (forget_stale key now window db).1 in
          subst
            (λ b.
              create_collection_idempotent later retried key request_hash window' a' c' db'
              ≡ (ok (b, false), db'))
            (sym same)
            (create_collection_idempotent-bound later retried r key request_hash window' a' c' db'
              (created-IsBound r key request_hash db₁ db' made)
              (insert_mapping-Unique r key request_hash db₁ db'
                (forget_stale-Unique key now window db u) made)
              (unfold created-IsBound in fresh))
    ]
