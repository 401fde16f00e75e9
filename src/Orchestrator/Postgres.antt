-- ===== src/Orchestrator/Postgres.antt =====
-- The repository that a worker hands to the orchestrator: FencedPostgresRepository under its lease
-- (storage/fenced_postgres.py).
use argus_web_intelligence.Prelude.{
  ℕ, String, Bool, List, [], ◌∷◌, Option, none, some, ◌≡◌, refl, ap, sym, subst, ◌∙◌, inl, inr, ◌⊎◌,
}
use argus_web_intelligence.Prelude.Action.{Result, ok, err, Action, through}
use argus_web_intelligence.Sql.{find, Unique}
use argus_web_intelligence.Contracts.{CollectionRecord}
use argus_web_intelligence.Storage.{
  Database, CollectionRow, CollectionRow_key, Storage, StorageError, driver, operational,
}
use argus_web_intelligence.Storage.Collections.{get_collection as read_row, overwrite}
use argus_web_intelligence.Storage.Fencing.{
  LeaseFence, current_lease_fence, fenced_update_collection,
}
use argus_web_intelligence.Storage.Fencing.Writes.{fenced_update_collection-whole}
use argus_web_intelligence.Storage.Commits.{commit_task_success, Interruption}
use argus_web_intelligence.Storage.Commits.Interrupted.{commit_task_success-whole}
use argus_web_intelligence.Storage.Recipes.{seen}
use argus_web_intelligence.Storage.Reads.{list_observations}
use argus_web_intelligence.Orchestrator.{SourceTask, Repository}
use argus_web_intelligence.Orchestrator.Tasks.{load_tasks}
use argus_web_intelligence.Orchestrator.Turn.{Turn, Settings}
use argus_web_intelligence.Orchestrator.Process.{process, begin}
use argus_web_intelligence.Orchestrator.Process.Replay.{Ended, process-Ended}
use argus_web_intelligence.Orchestrator.Process.Recovery.{Stores, Written}
use mathlib.Core.Option

-- A call of the driver: the time of the database, and the exception, if it raises one; in a
-- transaction, after so many statements.
pub record Call : Type 0 where
  pub now : ℕ
  pub statements : ℕ
  pub outage : Option StorageError

interruption : Call → Option Interruption
interruption c = Option.map (λ e. record { statements = c.statements; error = e }) c.outage

-- The database, and the calls to come; after them, the connection is lost.
pub record Session : Type 0 where
  pub db : Database
  pub calls : List Call

with_calls :
    {A : Type 0} → List Call → Result StorageError A × Database → Result StorageError A × Session
with_calls calls (r, db) = (r, record { db = db; calls = calls })

answer : {A : Type 0} → (Call → Storage A) → List Call → Database → Result StorageError A × Session
unfolding with_calls
answer f [] db = (err (driver operational), record { db = db; calls = [] })
answer f (c ∷ calls) db = with_calls calls (f c db)

on_call : {A : Type 0} → (Call → Storage A) → Action Session StorageError A
unfolding answer
on_call f s = answer f s.calls s.db

-- FencedPostgresRepository.get_collection
unfoldable pub fenced_get_collection :
    Option LeaseFence → Option StorageError → String → Storage (Option CollectionRecord)
unfolding seen read_row
fenced_get_collection context outage id db =
    seen (current_lease_fence context id) (through outage (read_row id) db)

unfoldable pub worker_repository :
    (String → String → Bool) → LeaseFence → Repository Session StorageError
unfolding on_call interruption
worker_repository text_le fence = record {
  get_collection = λ id. on_call (λ c. fenced_get_collection (some fence) c.outage id);
  update_collection = λ r. on_call (λ c. fenced_update_collection (some fence) c.outage c.now r);
  commit_task_success =
      λ r o e n. on_call (λ c. commit_task_success (some fence) (interruption c) c.now r o e n);
  list_observations = λ id. on_call (λ c. list_observations text_le (some fence) c.outage id);
}

-- Each collection has one row, at most.
abbrev pub Valid : Session → Type 0
Valid s = Unique s.db.collections

-- The stored record of a collection.
abbrev pub saved : String → Session → Option CollectionRecord
saved id s = Option.map (λ (row : CollectionRow). row.body) (find id s.db.collections)

-- What the two writes do under a lease.
Whole : CollectionRecord → Database → Result StorageError (Unit {0}) × Database → Type 0
Whole r db x =
    ((x.0 ≡ ok tt)
      × Unique x.1.collections
      × ((row : CollectionRow) × (find r.collection_id x.1.collections ≡ some (overwrite r row))))
    ⊎ ((e : StorageError) × (x ≡ (err e, db)))

Whole-Written :
    (r : CollectionRecord) (db : Database) (calls before : List Call)
    (x : Result StorageError (Unit {0}) × Database)
    → Unique db.collections
    → Whole r db x
    → Written Valid r.collection_id
        (saved r.collection_id)
        r
        (record { db = db; calls = before })
        (with_calls calls x)
unfolding Whole with_calls overwrite
Whole-Written r db calls before (ok a, db') u (inl (o, v, (row, e))) =
    (v, ap (Option.map (λ (k : CollectionRow). k.body)) e)
Whole-Written r db calls before (ok a, db') u (inr (e, h)) = let bad = ap (λ x. x.0) h in cc
Whole-Written r db calls before (err x, db') u (inl (o, v, w)) = cc
Whole-Written r db calls before (err x, db') u (inr (e, h)) =
    let same = ap (λ x. x.1) h in
    (
      subst (λ d. Unique d.collections) (sym same) u,
      ap (λ d. saved r.collection_id (record { db = d; calls = calls })) same,
    )

answer-Written :
    (id : String) (r : CollectionRecord) (f : Call → Storage (Unit {0})) (s : Session)
    → r.collection_id ≡ id
    → ((c : Call) → Whole r s.db (f c s.db))
    → Valid s
    → Written Valid id (saved id) r s (on_call f s)
unfolding on_call answer
answer-Written id r f s e whole u =
    subst (λ k. Written Valid k (saved k) r s (answer f s.calls s.db)) e (go s.calls)
  where
    go :
        (calls : List Call)
        → Written Valid r.collection_id (saved r.collection_id) r s (answer f calls s.db)
    go [] = (u, refl)
    go (c ∷ calls) = Whole-Written r s.db calls s.calls (f c s.db) u (whole c)

seen-db :
    {A : Type 0} (f : Option LeaseFence) (x : Result StorageError A × Database) → (seen f x).1 ≡ x.1
unfolding seen
seen-db none x = refl
seen-db (some f) (ok a, db) = refl
seen-db (some f) (err e, db) = refl

read-db :
    (outage : Option StorageError) (id : String) (db : Database)
    → (through outage (read_row id) db).1 ≡ db
unfolding read_row
read-db none id db = refl
read-db (some e) id db = refl

get-db :
    (context : Option LeaseFence) (id : String) (calls : List Call) (db : Database)
    → (answer (λ c. fenced_get_collection context c.outage id) calls db).1.db ≡ db
unfolding answer with_calls fenced_get_collection
get-db context id [] db = refl
get-db context id (c ∷ calls) db =
    seen-db (current_lease_fence context id) (through c.outage (read_row id) db)
    ∙ read-db c.outage id db

module _ (text_le : String → String → Bool) (fence : LeaseFence) where
  -- FencedPostgresRepository keeps the promises that the orchestrator relies on, for the collection
  -- of the lease.
  pub worker_repository-Stores :
      Stores Valid fence.collection_id (saved fence.collection_id) (worker_repository text_le fence)
  unfolding worker_repository Whole on_call
  worker_repository-Stores = record {
    update_collection = λ r s e u.
        answer-Written fence.collection_id r
          (λ c. fenced_update_collection (some fence) c.outage c.now r) s e
          (λ c. fenced_update_collection-whole fence c.now r s.db (sym e) u c.outage) u;
    commit_task_success = λ r o v n s e u.
        answer-Written fence.collection_id r
          (λ c. commit_task_success (some fence) (interruption c) c.now r o v n) s e
          (λ c. commit_task_success-whole fence r o v n (sym e) (interruption c) c.now s.db u) u;
    get_collection = λ s u.
        let same = get-db (some fence) fence.collection_id s.calls s.db in
        (
          subst (λ d. Unique d.collections) (sym same) u,
          ap
              (λ (d : Database).
                Option.map (λ (row : CollectionRow). row.body)
                  (find fence.collection_id d.collections))
              same,
        );
  }

  -- A worker that runs a collection under its lease may be stopped in any turn: by an exception of
  -- the driver, by the loss of the lease, by a cancellation or by the time budget. If the database
  -- had one row for each collection at most, and the row of this one held the record that the run
  -- starts from, then the row still holds a record from which a run is taken up where it stood: the
  -- same tasks count as done, the same queries as asked, and the same tasks are to do, in one order;
  -- as the run left them, or as they stood before the turn that stopped it.
  pub worker-Ended :
      (settings : Settings) (started_at : ℕ) (r : CollectionRecord) (tasks : List SourceTask)
      (turns : List (Turn StorageError)) (s : Session)
      → Unique s.db.collections
      → r.collection_id ≡ fence.collection_id
      → saved r.collection_id s ≡ some r
      → load_tasks r ≡ some tasks
      → Ended
          (worker_repository text_le fence)
          settings
          started_at
          Valid
          fence.collection_id
          (saved fence.collection_id)
          (begin r tasks)
          s
          (process (worker_repository text_le fence) settings started_at turns (begin r tasks) s)
  worker-Ended settings started_at r tasks turns s u e h l =
      process-Ended (worker_repository text_le fence) settings started_at Valid fence.collection_id
        (saved fence.collection_id) worker_repository-Stores r tasks turns s u e
        (subst (λ k. saved k s ≡ some r) e h) l
