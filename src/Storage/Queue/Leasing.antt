-- ===== src/Storage/Queue/Leasing.antt =====
-- Renewing and releasing leases, and what a worker can do once another has its lease.
use argus_web_intelligence.Prelude.{
  ℕ, ◌+◌, ◌≤◌, ◌<◌, max, String, true, false, ◌&&◌, none, some, String_eq, Nat_eq, ◌==◌,
  if◌then◌else◌, ◌≡◌, ◌≢◌, refl, arith, eq_iff, Option-cases, inl, inr, ◌⊎◌,
}
use argus_web_intelligence.Prelude.Action.{ok}
use argus_web_intelligence.Sql.{Unique}
use argus_web_intelligence.Sql.Laws.{
  count_where-key, key-find, find-update_where, find-delete_where,
}
use argus_web_intelligence.Contracts.{second}
use argus_web_intelligence.Storage.{Database, LeaseRow, LeaseRow_key}
use argus_web_intelligence.Storage.Queue.{
  owns_live, renew_collection_lease, release_collection_lease,
}
use argus_web_intelligence.Storage.Queue.Taking.{lease_of}

-- The worker has a lease on the collection that is live at `now`.
abbrev pub HoldsLease : Database → String → String → ℕ → Type 0
HoldsLease db id worker now =
    (l : LeaseRow) × (lease_of id db ≡ some l) × (l.worker_id ≡ worker) × (now < l.lease_until)

-- The condition of a renewal fixes the primary key.
pub owns_live-key :
    (id worker : String) (now : ℕ) (l : LeaseRow)
    → owns_live id worker now l ≡ true
    → l.collection_id ≡ id
unfolding owns_live
owns_live-key id worker now l h = ground (arith, eq_iff l.collection_id id)

module _ (now : ℕ) (id worker : String) (lease_seconds : ℕ) (db : Database) where
  abbrev renewed : Database
  renewed = (renew_collection_lease now id worker lease_seconds db).1

  abbrev extended : LeaseRow → LeaseRow
  extended l = record l { heartbeat_at = now; lease_until = now + max second lease_seconds }

  -- What a renewal leaves, whoever calls it.
  pub lease_of-renew :
      (k : String)
      → Unique db.leases
      → lease_of k renewed ≡ (elim (lease_of k db) [
        | none ↦ none
        | some l ↦ some (if owns_live id worker now l then extended l else l)
      ])
  unfolding renew_collection_lease
  lease_of-renew k u =
      find-update_where (owns_live id worker now) extended db.leases k (λ r. refl) u

  renew_answer :
      Unique db.leases
      → (renew_collection_lease now id worker lease_seconds db).0
        ≡ (elim (lease_of id db) [ none ↦ ok false | some l ↦ ok (owns_live id worker now l) ])
  unfolding renew_collection_lease
  renew_answer u = ground (
    arith,
    count_where-key (owns_live id worker now) id db.leases (owns_live-key id worker now) u,
  )

  -- A renewal succeeds exactly when the worker has a live lease, and then moves its end; a lease
  -- that has run out or is another's stays as it is, and so do the leases of other collections.
  renew_collection_lease_cases :
      Unique db.leases
      → ((l : LeaseRow)
          → lease_of id db ≡ some l
          → l.worker_id ≡ worker
          → now < l.lease_until
          → ((renew_collection_lease now id worker lease_seconds db).0 ≡ ok true)
            × (lease_of id renewed ≡ some (extended l)))
        × ((l : LeaseRow)
            → lease_of id db ≡ some l
            → (l.worker_id ≢ worker) ⊎ (l.lease_until ≤ now)
            → ((renew_collection_lease now id worker lease_seconds db).0 ≡ ok false)
              × (lease_of id renewed ≡ some l))
        × (lease_of id db ≡ none
            → ((renew_collection_lease now id worker lease_seconds db).0 ≡ ok false)
              × (lease_of id renewed ≡ none))
        × ((k : String) → k ≢ id → lease_of k renewed ≡ lease_of k db)
  unfolding owns_live
  renew_collection_lease_cases u = (
    λ l e mine live. (
      ground (
        arith,
        renew_answer u,
        key-find id db.leases e,
        eq_iff l.collection_id id,
        eq_iff l.worker_id worker,
      ),
      ground (
        arith,
        lease_of-renew id u,
        key-find id db.leases e,
        eq_iff l.collection_id id,
        eq_iff l.worker_id worker,
      ),
    ),
    λ l e lost. (
      ground (arith, renew_answer u, eq_iff l.worker_id worker),
      ground (arith, lease_of-renew id u, eq_iff l.worker_id worker),
    ),
    λ e. (ground (arith, renew_answer u), ground (arith, lease_of-renew id u)),
    λ k ne. elim (Option-cases (lease_of k db)) [
      | inl e ↦ ground (arith, lease_of-renew k u)
      | inr (l, e) ↦
          ground (arith, lease_of-renew k u, key-find k db.leases e, eq_iff l.collection_id id)
    ],
  )

-- A release removes the worker's own lease on the collection, live or not, and no other.
pub release_collection_lease_lem :
    (id worker k : String) (db : Database)
    → Unique db.leases
    → lease_of k (release_collection_lease id worker db).1 ≡ (elim (lease_of k db) [
      | none ↦ none
      | some l ↦ if k == id && l.worker_id == worker then none else some l
    ])
unfolding release_collection_lease
release_collection_lease_lem id worker k db u = elim (Option-cases (lease_of k db)) [
  | inl e ↦ ground (
    arith,
    find-delete_where (λ (l : LeaseRow). l.collection_id == id && l.worker_id == worker) db.leases k
        u,
  )
  | inr (l, e) ↦ ground (
    arith,
    key-find k db.leases e,
    find-delete_where (λ (l : LeaseRow). l.collection_id == id && l.worker_id == worker) db.leases k
        u,
  )
]
