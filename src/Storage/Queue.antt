-- ===== src/Storage/Queue.antt =====
-- storage/postgres.py: the registry of workers and the leases on queued collections. NOW() is an
-- argument: it is constant in a transaction.
pub mod Taking
pub mod Selection
pub mod Claiming
pub mod Leasing
pub mod Metrics
pub mod History
use argus_web_intelligence.Prelude.{
  ℕ, ◌+◌, max, String, Bool, true, false, ◌&&◌, ◌||◌, not, List, [], ◌∷◌, Option, none, some,
  String_eq, Nat_eq, ◌==◌, if◌then◌else◌, is_some, leb, ltb, length,
}
use argus_web_intelligence.Prelude.Text.{strip, is_blank}
use argus_web_intelligence.Prelude.Order.{first_row}
use argus_web_intelligence.Prelude.Action.{Result, ok, err}
use argus_web_intelligence.Sql.{find, upsert, count_where, update_where, delete_where, select_limit}
use argus_web_intelligence.Contracts.{is_active, second}
use argus_web_intelligence.Contracts.Values.{Json}
use argus_web_intelligence.Storage.{
  Database, CollectionRow, LeaseRow, LeaseRow_key, WorkerRow, WorkerRow_key, Storage, value_error,
}

-- PostgresRepository.register_worker
unfoldable pub register_worker : ℕ → String → Json → Storage (Unit {0})
unfolding strip
register_worker now worker_id metadata db =
    let worker = strip worker_id in
    let new : WorkerRow = record {
      worker_id = worker;
      started_at = now;
      heartbeat_at = now;
      metadata = metadata;
    } in
    if worker == "" then (err value_error, db) else (
      ok tt,
      record db {
        workers =
            (upsert (λ _. true)
              (λ row. record row { started_at = now; heartbeat_at = now; metadata = metadata }) new
              db.workers).0;
      },
    )

-- PostgresRepository.heartbeat_worker
unfoldable pub heartbeat_worker : ℕ → String → Storage Bool
heartbeat_worker now worker_id db =
    let test = λ (row : WorkerRow). row.worker_id == worker_id in
    (
      ok (count_where test db.workers == 1),
      record db {
        workers = update_where test (λ row. record row { heartbeat_at = now }) db.workers;
      },
    )

-- PostgresRepository.unregister_worker
unfoldable pub unregister_worker : String → Storage (Unit {0})
unregister_worker worker_id db =
    (ok tt, record db { workers = delete_where (λ row. row.worker_id == worker_id) db.workers })

-- `heartbeat_at >= NOW() - age`, with the subtraction moved over: it may fall below the epoch.
abbrev pub is_fresh : ℕ → ℕ → WorkerRow → Bool
is_fresh now age row = leb now (row.heartbeat_at + age)

-- PostgresRepository.active_worker_count
unfoldable pub active_worker_count : ℕ → ℕ → Storage ℕ
active_worker_count now max_age_seconds db =
    (ok (count_where (is_fresh now (max second max_age_seconds)) db.workers), db)

-- `lease_until > NOW()`
abbrev pub is_live : ℕ → LeaseRow → Bool
is_live now l = ltb now l.lease_until

-- `l.collection_id IS NULL OR l.lease_until <= NOW()` after the LEFT JOIN
unfoldable pub is_free : ℕ → Option LeaseRow → Bool
is_free now none = true
is_free now (some l) = leb l.lease_until now

-- What the environment does in one round of the claim loop: the rows that other transactions hold
-- locked, the time at which the transaction starts, and what others commit between its two
-- statements.
pub record Round : Type 0 where
  pub locked : String → Bool
  pub now : ℕ
  pub between : Database → Database

unfoldable pub is_claimable : Round → List LeaseRow → CollectionRow → Bool
is_claimable round leases row =
    is_active row.status
    && is_free round.now (find row.collection_id leases)
    && not (round.locked row.collection_id)

pub data Attempt : Type 0 where
  idle : Attempt
  claimed : String → Attempt
  lost_race : Attempt

-- The order of texts is the database's collation.
module _ (text_le : String → String → Bool) where
  -- ORDER BY c.created_at ASC, c.collection_id ASC
  unfoldable pub fifo : CollectionRow → CollectionRow → Bool
  fifo a b =
      ltb a.created_at b.created_at
      || (a.created_at == b.created_at && text_le a.collection_id b.collection_id)

  -- The first statement: SELECT … FOR UPDATE OF c SKIP LOCKED LIMIT 1
  unfoldable pub select_candidate : Round → Database → Option CollectionRow
  unfolding fifo is_claimable select_limit
  select_candidate round db =
      first_row fifo (select_limit (is_claimable round db.leases) fifo 1 db.collections)

-- The lease that a claim writes.
abbrev pub new_lease : String → String → ℕ → ℕ → LeaseRow
new_lease collection_id worker_id now lease = record {
  collection_id = collection_id;
  worker_id = worker_id;
  leased_at = now;
  heartbeat_at = now;
  lease_until = now + lease;
}

-- `lease_until <= NOW() OR worker_id = EXCLUDED.worker_id`
abbrev pub may_take : String → ℕ → LeaseRow → Bool
may_take worker_id now l = leb l.lease_until now || l.worker_id == worker_id

abbrev pub retake : String → ℕ → ℕ → LeaseRow → LeaseRow
retake worker_id now lease l = record l {
  worker_id = worker_id;
  leased_at = now;
  heartbeat_at = now;
  lease_until = now + lease;
}

-- The second statement: INSERT … ON CONFLICT (collection_id) DO UPDATE … WHERE … RETURNING
unfoldable pub take_lease : String → ℕ → ℕ → String → Database → Attempt × Database
take_lease worker_id now lease id db =
    let (leases, written) =
      upsert (may_take worker_id now) (retake worker_id now lease)
        (new_lease id worker_id now lease) db.leases in
    (if written then claimed id else lost_race, record db { leases = leases })

module _ (text_le : String → String → Bool) (worker_id : String) (lease_seconds : ℕ) where
  on_candidate : Round → Database → Option CollectionRow → Attempt × Database
  unfolding take_lease
  on_candidate round db none = (idle, db)
  on_candidate round db (some row) =
      take_lease worker_id round.now (max second lease_seconds) row.collection_id (round.between db)

  -- One pass through the body of the loop.
  unfoldable pub claim_attempt : Round → Database → Attempt × Database
  unfolding on_candidate
  claim_attempt round db = on_candidate round db (select_candidate text_le round db)

  -- PostgresRepository.claim_next_collection, over the rounds that the environment makes: `none`
  -- while the loop still runs when they are used up.
  unfoldable pub claim_next_collection : List Round → Database → Option (Option String) × Database
  claim_next_collection [] db = (none, db)
  claim_next_collection (round ∷ rounds) db =
      let (attempt, db') = claim_attempt round db in
      elim attempt [
        | idle ↦ (some none, db')
        | claimed id ↦ (some (some id), db')
        | lost_race ↦ claim_next_collection rounds db'
      ]

-- `collection_id=%s AND worker_id=%s AND lease_until > NOW()`
unfoldable pub owns_live : String → String → ℕ → LeaseRow → Bool
owns_live collection_id worker_id now l =
    l.collection_id == collection_id && l.worker_id == worker_id && is_live now l

-- PostgresRepository.renew_collection_lease
unfoldable pub renew_collection_lease : ℕ → String → String → ℕ → Storage Bool
unfolding owns_live
renew_collection_lease now collection_id worker_id lease_seconds db =
    let test = owns_live collection_id worker_id now in
    (
      ok (count_where test db.leases == 1),
      record db {
        leases =
            update_where test
              (λ l. record l { heartbeat_at = now; lease_until = now + max second lease_seconds })
              db.leases;
      },
    )

-- PostgresRepository.release_collection_lease
unfoldable pub release_collection_lease : String → String → Storage (Unit {0})
release_collection_lease collection_id worker_id db = (
  ok tt,
  record db {
    leases =
        delete_where (λ l. l.collection_id == collection_id && l.worker_id == worker_id) db.leases;
  },
)
