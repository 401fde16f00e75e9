-- ===== src/Storage/Queue/Taking.antt =====
-- The second statement of a claim: which lease it writes, and when.
use argus_web_intelligence.Prelude.{
  ℕ, ◌≤◌, String, true, Option, none, some, String_eq, Nat_eq, if◌then◌else◌, ◌≡◌, ◌≢◌, refl, arith,
  eq_iff, Option-cases, inl, inr, ◌⊎◌,
}
use argus_web_intelligence.Sql.{find}
use argus_web_intelligence.Sql.Laws.{
  key-find, upsert-written, find-upsert_self, find-upsert_ne, merged, written,
}
use argus_web_intelligence.Storage.{Database, LeaseRow, LeaseRow_key}
use argus_web_intelligence.Storage.Queue.{
  Attempt, idle, claimed, lost_race, may_take, retake, new_lease, take_lease, is_free,
}

-- The lease that a collection has, if any.
abbrev pub lease_of : String → Database → Option LeaseRow
lease_of id db = find id db.leases

module _ (worker_id : String) (now lease : ℕ) (id : String) (db : Database) where
  abbrev pub after : Database
  after = (take_lease worker_id now lease id db).1

  pub take_lease_cases :
      (o : Option LeaseRow)
      → lease_of id db ≡ o
      → ((take_lease worker_id now lease id db).0
          ≡ (if written (may_take worker_id now) o then claimed id else lost_race))
        × (lease_of id after
            ≡ merged
                (may_take worker_id now)
                (retake worker_id now lease)
                (new_lease id worker_id now lease)
                o)
  unfolding take_lease
  take_lease_cases o e = (
    rw (
      upsert-written (may_take worker_id now) (retake worker_id now lease)
          (new_lease id worker_id now lease) db.leases,
      e,
    ),
    rw (
      find-upsert_self (may_take worker_id now) (retake worker_id now lease)
          (new_lease id worker_id now lease) db.leases (λ r. refl),
      e,
    ),
  )

  -- A lease that was free, or the worker's own, is the worker's now; no other lease stops it.
  pub take_lease-claimed :
      (take_lease worker_id now lease id db).0 ≡ claimed id
      → (lease_of id after ≡ some (new_lease id worker_id now lease))
        × ((l : LeaseRow)
            → lease_of id db ≡ some l
            → (l.lease_until ≤ now) ⊎ (l.worker_id ≡ worker_id))
  take_lease-claimed won = elim (Option-cases (lease_of id db)) [
    | inl e ↦ (ground (arith, take_lease_cases none e), λ l h. cc)
    | inr (l, e) ↦ (
      ground (
        arith,
        take_lease_cases (some l) e,
        key-find id db.leases e,
        eq_iff l.worker_id worker_id,
      ),
      λ l' h. ground (arith, take_lease_cases (some l) e, eq_iff l.worker_id worker_id),
    )
  ]

pub take_lease-other :
    (worker_id : String) (now lease : ℕ) (id : String) (db : Database) (k : String)
    → k ≢ id
    → lease_of k (take_lease worker_id now lease id db).1 ≡ lease_of k db
unfolding take_lease
take_lease-other worker_id now lease id db k ne =
    find-upsert_ne (may_take worker_id now) (retake worker_id now lease)
      (new_lease id worker_id now lease) db.leases k (λ r. refl) ne

pub Attempt-cases :
    (a : Attempt) → (a ≡ idle) ⊎ (((id : String) × (a ≡ claimed id)) ⊎ (a ≡ lost_race))
Attempt-cases idle = inl refl
Attempt-cases (claimed id) = inr (inl (id, refl))
Attempt-cases lost_race = inr (inr refl)

pub take_lease-free :
    (worker_id : String) (now lease : ℕ) (id : String) (db : Database)
    → is_free now (lease_of id db) ≡ true
    → (take_lease worker_id now lease id db).0 ≡ claimed id
unfolding is_free
take_lease-free worker_id now lease id db f = elim (Option-cases (lease_of id db)) [
  | inl e ↦ (take_lease_cases worker_id now lease id db none e).0
  | inr (l, e) ↦ ground (arith, take_lease_cases worker_id now lease id db (some l) e)
]

pub take_lease-claimed_id :
    (worker_id : String) (now lease : ℕ) (id id' : String) (db : Database)
    → (take_lease worker_id now lease id db).0 ≡ claimed id'
    → id ≡ id'
unfolding take_lease
take_lease-claimed_id worker_id now lease id id' db h = ground arith
