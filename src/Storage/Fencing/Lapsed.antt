-- ===== src/Storage/Fencing/Lapsed.antt =====
-- Leases along a history that has the writes too: no write takes, moves or removes a lease.
use argus_web_intelligence.Prelude.{
  ℕ, String, List, [], ◌∷◌, Option, some, ◌≡◌, ◌≢◌, refl, sym, subst, All, String_eq, arith,
}
use argus_web_intelligence.Sql.{Unique, find}
use argus_web_intelligence.Contracts.{CollectionRecord, Observation, Evidence, Snapshot}
use argus_web_intelligence.Storage.{Database, LeaseRow, LeaseRow_key, Storage, StorageError}
use argus_web_intelligence.Storage.Collections.{update_collection}
use argus_web_intelligence.Storage.Queue.History.{
  Event, Moment, step, HasNoLease, NotTakenBy, step-HasNoLease, step-Unique,
}
use argus_web_intelligence.Storage.Fencing.{
  LeaseFence, fenced_update_collection, add_observation, add_evidence, add_snapshot,
}
use argus_web_intelligence.Storage.Commits.{Interruption, commit_task_success}

-- What happens in between: a call of the queue, or a write of a worker under its fence, of the API
-- with none, with what the driver raises.
pub data Act : Type 0 where
  queue : Event → Act
  updates : Option LeaseFence → Option StorageError → CollectionRecord → Act
  observes : Option LeaseFence → Option StorageError → Observation → Act
  documents : Option LeaseFence → Option StorageError → Evidence → String → Act
  captures : Option LeaseFence → Option StorageError → Snapshot → Option String → Act
  commits :
      Option LeaseFence
      → Option Interruption
      → CollectionRecord
      → List Observation
      → List Evidence
      → List Snapshot
      → Act

unfoldable pub act : Act → Moment → Moment
act (queue e) m = step e m
act (updates f x r) m = record m { db = (fenced_update_collection f x m.now r m.db).1 }
act (observes f x o) m = record m { db = (add_observation f x m.now o m.db).1 }
act (documents f x e id) m = record m { db = (add_evidence f x m.now e id m.db).1 }
act (captures f x s id) m = record m { db = (add_snapshot f x m.now s id m.db).1 }
act (commits f x r os es ss) m = record m { db = (commit_task_success f x m.now r os es ss m.db).1 }

unfoldable pub act_all : List Act → Moment → Moment
act_all [] m = m
act_all (a ∷ rest) m = act_all rest (act a m)

-- The act is no claim of this collection by this worker.
abbrev pub NotClaimedBy : String → String → Act → Type 0
NotClaimedBy worker id (queue e) = NotTakenBy worker id e
NotClaimedBy worker id _ = Unit {0}

-- A statement leaves the leases alone.
Spares : {A : Type 0} → Storage A → Type 0
Spares m = (db : Database) → (m db).1.leases ≡ db.leases

fenced_update_collection-Spares :
    (f : Option LeaseFence) (x : Option StorageError) (now : ℕ) (r : CollectionRecord)
    → Spares (fenced_update_collection f x now r)
unfolding Spares fenced_update_collection update_collection
fenced_update_collection-Spares f x now r db = ground arith

add_observation-Spares :
    (f : Option LeaseFence) (x : Option StorageError) (now : ℕ) (o : Observation)
    → Spares (add_observation f x now o)
unfolding Spares add_observation
add_observation-Spares f x now o db = ground arith

add_evidence-Spares :
    (f : Option LeaseFence) (x : Option StorageError) (now : ℕ) (e : Evidence) (id : String)
    → Spares (add_evidence f x now e id)
unfolding Spares add_evidence
add_evidence-Spares f x now e id db = ground arith

add_snapshot-Spares :
    (f : Option LeaseFence) (x : Option StorageError) (now : ℕ) (s : Snapshot) (id : Option String)
    → Spares (add_snapshot f x now s id)
unfolding Spares add_snapshot
add_snapshot-Spares f x now s id db = ground arith

commit_task_success-Spares :
    (f : Option LeaseFence) (x : Option Interruption) (now : ℕ) (r : CollectionRecord)
    (os : List Observation) (es : List Evidence) (ss : List Snapshot)
    → Spares (commit_task_success f x now r os es ss)
unfolding Spares commit_task_success
commit_task_success-Spares f x now r os es ss db = ground arith

-- What an act other than a call of the queue leaves of the leases, is what there was.
spared :
    (P : List LeaseRow → Type 0) {before after : List LeaseRow}
    → after ≡ before
    → P before
    → P after
spared P same h = subst P (sym same) h

act-Keeps :
    (P : List LeaseRow → Type 0) (a : Act) (m : Moment)
    → ((e : Event) → a ≡ queue e → P (step e m).db.leases)
    → P m.db.leases
    → P (act a m).db.leases
unfolding act Spares
act-Keeps P (queue e) m q h = q e refl
act-Keeps P (updates f x r) m q h = spared P (fenced_update_collection-Spares f x m.now r m.db) h
act-Keeps P (observes f x o) m q h = spared P (add_observation-Spares f x m.now o m.db) h
act-Keeps P (documents f x e id) m q h = spared P (add_evidence-Spares f x m.now e id m.db) h
act-Keeps P (captures f x s id) m q h = spared P (add_snapshot-Spares f x m.now s id m.db) h
act-Keeps P (commits f x r os es ss) m q h =
    spared P (commit_task_success-Spares f x m.now r os es ss m.db) h

act-Unique : (a : Act) (m : Moment) → Unique m.db.leases → Unique (act a m).db.leases
act-Unique a m u = act-Keeps Unique a m (λ e _. step-Unique e m u) u

act-HasNoLease :
    (id worker : String) (a : Act) (m : Moment)
    → Unique m.db.leases
    → NotClaimedBy worker id a
    → HasNoLease m.db id worker
    → HasNoLease (act a m).db id worker
act-HasNoLease id worker a m u n h =
    act-Keeps (λ ls. (l : LeaseRow) → find id ls ≡ some l → l.worker_id ≢ worker) a m
      (λ e same. step-HasNoLease id worker e m u (subst (NotClaimedBy worker id) same n) h) h

pub act_all-Unique :
    (rest : List Act) (m : Moment) → Unique m.db.leases → Unique (act_all rest m).db.leases
unfolding act_all
act_all-Unique [] m u = u
act_all-Unique (a ∷ rest) m u = act_all-Unique rest (act a m) (act-Unique a m u)

pub act_all-HasNoLease :
    (id worker : String) (rest : List Act) (m : Moment)
    → Unique m.db.leases
    → All (NotClaimedBy worker id) rest
    → HasNoLease m.db id worker
    → HasNoLease (act_all rest m).db id worker
unfolding act_all
act_all-HasNoLease id worker [] m u n h = h
act_all-HasNoLease id worker (a ∷ rest) m u n h =
    act_all-HasNoLease id worker rest (act a m) (act-Unique a m u) n.1
      (act-HasNoLease id worker a m u n.0 h)
