-- ===== src/Storage/Queue/History.antt =====
-- Leases along a history: calls of any workers in any order, while time passes. A claim is its
-- second statement, for whatever collection its first statement chose at whatever time.
use argus_web_intelligence.Prelude.{
  ℕ, ◌+◌, ◌≤◌, ◌<◌, max, String, false, List, [], ◌∷◌, none, some, String_eq, ◌==◌, ◌≡◌, ◌≢◌, refl,
  arith, eq_iff, Option-cases, Bool-cases, inl, inr, All, ◌⊎◌,
}
use argus_web_intelligence.Sql.{Unique}
use argus_web_intelligence.Sql.Laws.{upsert-Unique, update_where-Unique, delete_where-Unique}
use argus_web_intelligence.Contracts.{second}
use argus_web_intelligence.Storage.{Database, LeaseRow, LeaseRow_key}
use argus_web_intelligence.Storage.Queue.{
  take_lease, may_take, retake, new_lease, owns_live, renew_collection_lease,
  release_collection_lease,
}
use argus_web_intelligence.Storage.Queue.Taking.{lease_of, take_lease_cases, take_lease-other}
use argus_web_intelligence.Storage.Queue.Leasing.{lease_of-renew, release_collection_lease_lem}

pub data Event : Type 0 where
  takes : String → ℕ → String → Event
  renews : String → ℕ → String → Event
  releases : String → String → Event
  waits : ℕ → Event

-- A database at a time.
pub record Moment : Type 0 where
  pub now : ℕ
  pub db : Database

unfoldable pub step : Event → Moment → Moment
step (takes worker lease id) m = record m {
  db = (take_lease worker m.now (max second lease) id m.db).1;
}
step (renews worker lease id) m = record m {
  db = (renew_collection_lease m.now id worker lease m.db).1;
}
step (releases worker id) m = record m { db = (release_collection_lease id worker m.db).1 }
step (waits d) m = record m { now = m.now + d }

unfoldable pub run : List Event → Moment → Moment
run [] m = m
run (e ∷ es) m = run es (step e m)

pub step-Unique : (e : Event) (m : Moment) → Unique m.db.leases → Unique (step e m).db.leases
unfolding step take_lease renew_collection_lease release_collection_lease
step-Unique (takes worker lease id) m u =
    upsert-Unique (may_take worker m.now) (retake worker m.now (max second lease))
      (new_lease id worker m.now (max second lease)) m.db.leases (λ r. refl) u
step-Unique (renews worker lease id) m u =
    update_where-Unique (owns_live id worker m.now) _ m.db.leases (λ r. refl) u
step-Unique (releases worker id) m u = delete_where-Unique _ m.db.leases u
step-Unique (waits d) m u = u

-- The event is no call of this worker.
abbrev pub NotBy : String → Event → Type 0
NotBy worker (takes w lease k) = w ≢ worker
NotBy worker (renews w lease k) = w ≢ worker
NotBy worker (releases w k) = w ≢ worker
NotBy worker (waits d) = Unit {0}

-- The event is no claim of this collection by this worker.
abbrev pub NotTakenBy : String → String → Event → Type 0
NotTakenBy worker id (takes w lease k) = (w ≢ worker) ⊎ (k ≢ id)
NotTakenBy worker id _ = Unit {0}

step-lease_of-take :
    (id w k : String) (lease : ℕ) (m : Moment) (l : LeaseRow)
    → lease_of id m.db ≡ some l
    → w ≢ l.worker_id
    → m.now < l.lease_until
    → lease_of id (take_lease w m.now lease k m.db).1 ≡ some l
step-lease_of-take id w k lease m l e other live = elim (Bool-cases (k == id)) [
  | inl same ↦
      ground (
        arith,
        eq_iff k id,
        eq_iff l.worker_id w,
        take_lease_cases w m.now lease id m.db (some l) e,
      )
  | inr ne ↦ ground (arith, eq_iff k id, take_lease-other w m.now lease k m.db id)
]

step-now-le : (e : Event) (m : Moment) → m.now ≤ (step e m).now
unfolding step
step-now-le (takes w lease k) m = omega arith
step-now-le (renews w lease k) m = omega arith
step-now-le (releases w k) m = omega arith
step-now-le (waits d) m = omega arith

run-now-le : (es : List Event) (m : Moment) → m.now ≤ (run es m).now
unfolding run
run-now-le [] m = omega arith
run-now-le (e ∷ es) m = omega (arith, step-now-le e m, run-now-le es (step e m))

owns_live-other :
    (k w : String) (now : ℕ) (l : LeaseRow) → w ≢ l.worker_id → owns_live k w now l ≡ false
unfolding owns_live
owns_live-other k w now l n = ground (arith, eq_iff l.worker_id w)

step-lease_of :
    (id : String) (e : Event) (m : Moment) (l : LeaseRow)
    → Unique m.db.leases
    → lease_of id m.db ≡ some l
    → NotBy l.worker_id e
    → m.now < l.lease_until
    → lease_of id (step e m).db ≡ some l
unfolding step
step-lease_of id (takes w lease k) m l u h n t =
    step-lease_of-take id w k (max second lease) m l h n t
step-lease_of id (renews w lease k) m l u h n t =
    ground (arith, lease_of-renew m.now k w lease m.db id u, owns_live-other k w m.now l n)
step-lease_of id (releases w k) m l u h n t =
    ground (arith, release_collection_lease_lem k w id m.db u, eq_iff l.worker_id w)
step-lease_of id (waits d) m l u h n t = h

-- Nobody takes, moves or removes a live lease of another worker: whatever the other workers call,
-- in whatever order, it stands as it was while its time runs.
pub lease_of-run :
    (id : String) (es : List Event) (m : Moment) (l : LeaseRow)
    → Unique m.db.leases
    → lease_of id m.db ≡ some l
    → All (NotBy l.worker_id) es
    → (run es m).now < l.lease_until
    → lease_of id (run es m).db ≡ some l
unfolding run
lease_of-run id [] m l u h n t = h
lease_of-run id (e ∷ es) m l u h n t =
    lease_of-run id es (step e m) l (step-Unique e m u)
      (step-lease_of id e m l u h n.0 (omega (arith, step-now-le e m, run-now-le es (step e m))))
      n.1 t

-- The worker has no lease on the collection, live or not.
abbrev pub HasNoLease : Database → String → String → Type 0
HasNoLease db id worker = (l : LeaseRow) → lease_of id db ≡ some l → l.worker_id ≢ worker

module _ (id worker w k : String) (m : Moment) where
  take-HasNoLease :
      (lease : ℕ)
      → (w ≢ worker) ⊎ (k ≢ id)
      → HasNoLease m.db id worker
      → HasNoLease (take_lease w m.now lease k m.db).1 id worker
  take-HasNoLease lease n h l e = elim (Bool-cases (k == id)) [
    | inl same ↦ elim (Option-cases (lease_of id m.db)) [
      | inl none_here ↦
          ground (arith, eq_iff k id, take_lease_cases w m.now lease id m.db none none_here)
      | inr (l₀, here) ↦
          ground
            (arith, eq_iff k id, h l₀ here, take_lease_cases w m.now lease id m.db (some l₀) here)
    ]
    | inr ne ↦ h l (ground (arith, eq_iff k id, take_lease-other w m.now lease k m.db id))
  ]

  renew-HasNoLease :
      (lease : ℕ)
      → Unique m.db.leases
      → HasNoLease m.db id worker
      → HasNoLease (renew_collection_lease m.now k w lease m.db).1 id worker
  renew-HasNoLease lease u h l e = elim (Option-cases (lease_of id m.db)) [
    | inl none_here ↦ ground (arith, lease_of-renew m.now k w lease m.db id u)
    | inr (l₀, here) ↦ ground (arith, h l₀ here, lease_of-renew m.now k w lease m.db id u)
  ]

  release-HasNoLease :
      Unique m.db.leases
      → HasNoLease m.db id worker
      → HasNoLease (release_collection_lease k w m.db).1 id worker
  release-HasNoLease u h l e = elim (Option-cases (lease_of id m.db)) [
    | inl none_here ↦ ground (arith, release_collection_lease_lem k w id m.db u)
    | inr (l₀, here) ↦ ground (arith, h l₀ here, release_collection_lease_lem k w id m.db u)
  ]

pub step-HasNoLease :
    (id worker : String) (e : Event) (m : Moment)
    → Unique m.db.leases
    → NotTakenBy worker id e
    → HasNoLease m.db id worker
    → HasNoLease (step e m).db id worker
unfolding step
step-HasNoLease id worker (takes w lease k) m u n h l e =
    take-HasNoLease id worker w k m (max second lease) n h l e
step-HasNoLease id worker (renews w lease k) m u n h l e =
    renew-HasNoLease id worker w k m lease u h l e
step-HasNoLease id worker (releases w k) m u n h l e = release-HasNoLease id worker w k m u h l e
step-HasNoLease id worker (waits d) m u n h l e = h l e

-- A worker that has lost a collection to another cannot act on it again before it claims it again:
-- no renewal, no release and no passing of time gives it a lease.
pub run-HasNoLease :
    (id worker : String) (es : List Event) (m : Moment)
    → Unique m.db.leases
    → All (NotTakenBy worker id) es
    → HasNoLease m.db id worker
    → HasNoLease (run es m).db id worker
unfolding run
run-HasNoLease id worker [] m u n h = h
run-HasNoLease id worker (e ∷ es) m u n h =
    run-HasNoLease id worker es (step e m) (step-Unique e m u) n.1
      (step-HasNoLease id worker e m u n.0 h)

pub run-Unique : (es : List Event) (m : Moment) → Unique m.db.leases → Unique (run es m).db.leases
unfolding run
run-Unique [] m u = u
run-Unique (e ∷ es) m u = run-Unique es (step e m) (step-Unique e m u)
