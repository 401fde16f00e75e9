-- ===== src/Storage/Queue/Metrics.antt =====
-- storage/postgres.py: the numbers that queue_metrics reports.
use argus_web_intelligence.Prelude.{
  ℕ, ◌+◌, ◌-◌, ◌≤◌, max, min, Bool, true, false, List, [], ◌∷◌, Option, none, some, if◌then◌else◌,
  ◌≡◌, refl, arith, length, All, leb, ltb, All-map, Bool-cases, inl, inr, false≢true, sym, ◌∙◌,
  subst,
}
use argus_web_intelligence.Prelude.Action.{ok}
use argus_web_intelligence.Sql.{count_where}
use argus_web_intelligence.Contracts.{queued, running, is_active, second}
use argus_web_intelligence.Storage.{Database, CollectionRow, LeaseRow, WorkerRow, Storage}
use argus_web_intelligence.Storage.Queue.{is_live, is_fresh}

-- base.QueueMetrics; an age is in the unit of time.
pub record QueueMetrics : Type 0 where
  pub queued_count : ℕ
  pub running_count : ℕ
  pub active_leases : ℕ
  pub expired_leases : ℕ
  pub active_workers : ℕ
  pub stale_workers : ℕ
  pub oldest_queued_age : Option ℕ
  pub oldest_running_age : Option ℕ

unfoldable pub is_queued_row : CollectionRow → Bool
is_queued_row row = elim row.status [ queued ↦ true | _ ↦ false ]

unfoldable pub is_running_row : CollectionRow → Bool
is_running_row row = elim row.status [ running ↦ true | _ ↦ false ]

earlier : ℕ → Option ℕ → Option ℕ
earlier t none = some t
earlier t (some u) = some (min t u)

-- MIN(created_at) FILTER (WHERE test)
unfoldable pub first_created : (CollectionRow → Bool) → List CollectionRow → Option ℕ
unfolding earlier
first_created test [] = none
first_created test (row ∷ rows) =
    let rest = first_created test rows in if test row then earlier row.created_at rest else rest

-- _age of NOW() - MIN(created_at): what is negative becomes 0
unfoldable pub age : ℕ → Option ℕ → Option ℕ
age now none = none
age now (some t) = some (now - t)

-- PostgresRepository.queue_metrics
unfoldable pub reported : ℕ → ℕ → Database → QueueMetrics
unfolding first_created age is_queued_row is_running_row
reported now worker_max_age db =
    let worker_age = max second worker_max_age in
    record {
      queued_count = count_where is_queued_row db.collections;
      running_count = count_where is_running_row db.collections;
      active_leases = count_where (is_live now) db.leases;
      expired_leases = count_where (λ (l : LeaseRow). leb l.lease_until now) db.leases;
      active_workers = count_where (is_fresh now worker_age) db.workers;
      stale_workers =
          count_where (λ (row : WorkerRow). ltb (row.heartbeat_at + worker_age) now) db.workers;
      oldest_queued_age = age now (first_created is_queued_row db.collections);
      oldest_running_age = age now (first_created is_running_row db.collections);
    }

unfoldable pub queue_metrics : ℕ → ℕ → Storage QueueMetrics
unfolding reported
queue_metrics now worker_max_age db = (ok (reported now worker_max_age db), db)

count-split :
    {Row : Type 0} (p q r : Row → Bool) (rows : List Row)
    → ((x : Row) → ((if p x then 1 else 0) + (if q x then 1 else 0)) ≡ (if r x then 1 else 0))
    → count_where p rows + count_where q rows ≡ count_where r rows
unfolding count_where
count-split p q r [] h = refl
count-split p q r (x ∷ xs) h = ground (arith, h x, count-split p q r xs h)

count-all : {Row : Type 0} (rows : List Row) → count_where (λ _. true) rows ≡ length rows
unfolding count_where
count-all [] = refl
count-all (x ∷ xs) = ground (arith, count-all xs)

status_split :
    (row : CollectionRow)
    → ((if is_queued_row row then 1 else 0) + (if is_running_row row then 1 else 0))
      ≡ (if is_active row.status then 1 else 0)
unfolding is_queued_row is_running_row is_active
status_split row = ground arith

-- An age that covers each of the rows that pass a test.
abbrev pub Covers : ℕ → (CollectionRow → Bool) → List CollectionRow → Option ℕ → Type 0
Covers now test rows oldest =
    All
      (λ (row : CollectionRow).
        test row ≡ true → (a : ℕ) × (oldest ≡ some a) × (now - row.created_at ≤ a))
      rows

module _ (test : CollectionRow → Bool) where
  abbrev Precedes : Option ℕ → CollectionRow → Type 0
  Precedes first row = test row ≡ true → (t : ℕ) × (first ≡ some t) × (t ≤ row.created_at)

  earlier-row :
      (row : CollectionRow) (rest : Option ℕ)
      → (t : ℕ) × (earlier row.created_at rest ≡ some t) × (t ≤ row.created_at)
  unfolding earlier
  earlier-row row none = (row.created_at, refl, omega arith)
  earlier-row row (some u) = (min row.created_at u, refl, omega arith)

  Precedes-earlier :
      (c : ℕ) (rest : Option ℕ) (s : CollectionRow) → Precedes rest s → Precedes (earlier c rest) s
  unfolding earlier
  Precedes-earlier c none s h passes = absurd (ground (arith, (h passes).1))
  Precedes-earlier c (some u) s h passes =
      let (t, e, le) = h passes in (min c u, refl, ground (arith, e, le))

  first_created-hit :
      (row : CollectionRow) (rows : List CollectionRow)
      → test row ≡ true
      → first_created test (row ∷ rows) ≡ earlier row.created_at (first_created test rows)
  unfolding first_created
  first_created-hit row rows e = rw e refl

  first_created-miss :
      (row : CollectionRow) (rows : List CollectionRow)
      → test row ≡ false
      → first_created test (row ∷ rows) ≡ first_created test rows
  unfolding first_created
  first_created-miss row rows e = rw e refl

  first_created-Precedes :
      (rows : List CollectionRow) → All (Precedes (first_created test rows)) rows
  first_created-Precedes [] = tt
  first_created-Precedes (row ∷ rows) =
      let rest = first_created test rows in
      elim (Bool-cases (test row)) [
        | inl passes ↦
            subst (λ f. All (Precedes f) (row ∷ rows)) (sym (first_created-hit row rows passes))
              (
                λ _. earlier-row row rest,
                All-map (Precedes rest) (Precedes (earlier row.created_at rest))
                    (Precedes-earlier row.created_at rest) rows (first_created-Precedes rows),
              )
        | inr fails ↦
            subst (λ f. All (Precedes f) (row ∷ rows)) (sym (first_created-miss row rows fails))
              (λ passes. absurd (false≢true (sym fails ∙ passes)), first_created-Precedes rows)
      ]

  first_created-Covers :
      (now : ℕ) (rows : List CollectionRow)
      → Covers now test rows (age now (first_created test rows))
  unfolding age
  first_created-Covers now rows =
      All-map (Precedes (first_created test rows)) _
        (λ row h passes. let (t, e, le) = h passes in (now - t, rw e refl, omega (arith, le))) rows
        (first_created-Precedes rows)

-- What the numbers say of a database.
abbrev pub AddsUp : ℕ → Database → QueueMetrics → Type 0
AddsUp now db q =
    (q.queued_count + q.running_count
      ≡ count_where (λ (row : CollectionRow). is_active row.status) db.collections)
    × (q.active_leases + q.expired_leases ≡ length db.leases)
    × (q.active_workers + q.stale_workers ≡ length db.workers)
    × Covers now is_queued_row db.collections q.oldest_queued_age
    × Covers now is_running_row db.collections q.oldest_running_age

-- The numbers of the queue add up: queued and running collections to the active ones, active and
-- expired leases to all leases, active and stale workers to all workers; and no queued or running
-- collection is older than the age that is reported for its state.
pub queue_metrics-AddsUp :
    (now worker_max_age : ℕ) (db : Database) (q : QueueMetrics)
    → (queue_metrics now worker_max_age db).0 ≡ ok q
    → AddsUp now db q
unfolding queue_metrics
queue_metrics-AddsUp now worker_max_age db q e =
    let m : QueueMetrics = reported now worker_max_age db in
    let same : m ≡ q = cc in
    subst (AddsUp now db) same (
      count-split is_queued_row is_running_row _ db.collections status_split,
      count-split _ _ (λ _. true) db.leases (λ l. ground arith) ∙ count-all db.leases,
      count-split _ _ (λ _. true) db.workers (λ w. ground arith) ∙ count-all db.workers,
      first_created-Covers is_queued_row now db.collections,
      first_created-Covers is_running_row now db.collections,
    )
