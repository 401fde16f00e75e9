-- ===== src/Worker/Examples.antt =====
-- A worker over the database, with two collections that wait and a limit of one.
use argus_web_intelligence.Prelude.{
  ◌*◌, length, ◌≤◌, true, false, List, [], ◌∷◌, none, some, ◌≡◌, refl, arith, when_none,
}
use argus_web_intelligence.Prelude.Action.{ok}
use argus_web_intelligence.Prelude.Collation.{code_point_le}
use argus_web_intelligence.Contracts.{second, is_active}
use argus_web_intelligence.Sql.{find, upsert}
use argus_web_intelligence.Prelude.Order.{order_by}
use argus_web_intelligence.Storage.{Database, StorageError}
use argus_web_intelligence.Storage.Queue.{
  claim_next_collection, claim_attempt, select_candidate, is_free, unregister_worker,
}
use argus_web_intelligence.Storage.Examples.{two_waiting, calm, lease}
use argus_web_intelligence.Worker.{
  Queue, Settings, Worker, Round, checked, claim_round, claim_rounds, reap_finished,
  llm_allows_new_claims, claim_each,
}
use argus_web_intelligence.Worker.Bounded.{run-RunsWithin}

abbrev queue : Queue Database StorageError
queue = record {
  claim_next_collection = λ db.
      let (found, db') =
        claim_next_collection code_point_le "w-1" (5 * second) (calm 200 ∷ []) db in
      (ok (when_none found none), db');
  unregister_worker = unregister_worker "w-1";
}

abbrev one_at_a_time : Settings
one_at_a_time = record { worker_concurrency = 1; llm_required = true }

abbrev two_at_a_time : Settings
two_at_a_time = record one_at_a_time { worker_concurrency = 2 }

abbrev idle_worker : Worker Database
idle_worker = record { store = two_waiting; active = []; llm_claims_ready = none; started = true }

-- No task is done, and the model is ready.
abbrev busy : Round StorageError
busy = record { done = λ id. false; health = some (checked true) }

abbrev two_rounds : List (Round StorageError)
two_rounds = busy ∷ busy ∷ []

takes_one : (claim_rounds queue one_at_a_time two_rounds idle_worker).1.active ≡ "c-1" ∷ []
unfolding claim_rounds claim_next_collection claim_attempt select_candidate order_by is_active
    is_free find upsert
takes_one = refl

run-RunsWithin_example :
    length (claim_rounds queue one_at_a_time two_rounds idle_worker).1.active ≤ 1
run-RunsWithin_example =
    (run-RunsWithin queue one_at_a_time two_rounds idle_worker
      (record { started = refl; distinct = tt; few = omega arith })).0.few

-- The lease on a collection that still runs has lapsed, since its heartbeat was late: the worker
-- claims that collection itself once more and starts a second task for it, under the same fence. The
-- new task takes the place of the old one in `_active`, so that two tasks count as one.
abbrev late_worker : Worker Database
late_worker = record idle_worker {
  store = record two_waiting { leases = lease "c-1" "w-1" 100 ∷ [] };
  active = "c-1" ∷ [];
}

claims_itself :
    ((claim_round queue two_at_a_time busy late_worker).0 ≡ ok 1)
    × ((claim_round queue two_at_a_time busy late_worker).1.active ≡ "c-1" ∷ [])
unfolding claim_round claim_next_collection claim_attempt select_candidate order_by is_active
    is_free find upsert reap_finished llm_allows_new_claims claim_each
claims_itself = (refl, refl)
