-- ===== src/Storage/Fencing/Guards.antt =====
-- The conditions of the fenced statements, as statements about leases and rows.
use argus_web_intelligence.Prelude.{
  ℕ, String, true, false, some, String_eq, ◌≡◌, arith, eq_iff, Option-cases, Bool-cases, inl, inr,
  ◌↔◌,
}
use argus_web_intelligence.Sql.{Unique}
use argus_web_intelligence.Sql.Laws.{any-key, key-find}
use argus_web_intelligence.Storage.{Database, LeaseRow_key}
use argus_web_intelligence.Storage.Queue.{owns_live}
use argus_web_intelligence.Storage.Queue.Taking.{lease_of}
use argus_web_intelligence.Storage.Queue.Leasing.{owns_live-key, HoldsLease}
use argus_web_intelligence.Storage.Fencing.{LeaseFence, has_lease, current_lease_fence}

-- The EXISTS of the fenced statements holds exactly under a live lease of the worker.
pub has_lease_iff :
    (fence : LeaseFence) (id : String) (now : ℕ) (db : Database)
    → Unique db.leases
    → (has_lease fence id now db ≡ true) ↔ HoldsLease db id fence.worker_id now
unfolding has_lease owns_live
has_lease_iff fence id now db u = elim (Option-cases (lease_of id db)) [
  | inl e ↦ (
    λ h. absurd (
        ground (
          arith,
          any-key (owns_live id fence.worker_id now) id db.leases
              (owns_live-key id fence.worker_id now) u,
        )),
    λ h. absurd (ground (arith, h.1)),
  )
  | inr (l, e) ↦ (
    λ h. (
      l,
      e,
      ground (
        arith,
        any-key (owns_live id fence.worker_id now) id db.leases
            (owns_live-key id fence.worker_id now) u,
        eq_iff l.worker_id fence.worker_id,
      ),
      ground (
        arith,
        any-key (owns_live id fence.worker_id now) id db.leases
            (owns_live-key id fence.worker_id now) u,
      ),
    ),
    λ h. ground (
      arith,
      h.1,
      h.2,
      h.3,
      key-find id db.leases e,
      eq_iff l.collection_id id,
      eq_iff l.worker_id fence.worker_id,
      any-key (owns_live id fence.worker_id now) id db.leases (owns_live-key id fence.worker_id now)
          u,
    ),
  )
]

pub has_lease-false :
    (fence : LeaseFence) (id : String) (now : ℕ) (db : Database)
    → Unique db.leases
    → ¬ HoldsLease db id fence.worker_id now
    → has_lease fence id now db ≡ false
has_lease-false fence id now db u n = elim (Bool-cases (has_lease fence id now db)) [
  | inl h ↦ absurd (n ((has_lease_iff fence id now db u).0 h))
  | inr h ↦ h
]

-- The context variable of a worker that runs this collection.
pub current_lease_fence_self :
    (fence : LeaseFence) (id : String)
    → fence.collection_id ≡ id
    → current_lease_fence (some fence) id ≡ some fence
unfolding current_lease_fence
current_lease_fence_self fence id e = ground (arith, eq_iff fence.collection_id id)
