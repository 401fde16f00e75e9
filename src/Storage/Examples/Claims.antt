-- ===== src/Storage/Examples/Claims.antt =====
-- Claims, renewals and histories of leases, run.
use argus_web_intelligence.Prelude.{
  ◌*◌, max, String, true, false, [], ◌∷◌, ◌++◌, Option, none, some, ◌≡◌, ◌≢◌, refl, arith, eq_iff,
  All,
}
use argus_web_intelligence.Prelude.Order.{order_by}
use argus_web_intelligence.Prelude.Collation.{code_point_le, code_point_le-TotalOrder}
use mathlib.Core.List.{Mem}
use argus_web_intelligence.Sql.{find, upsert, Unique}
use argus_web_intelligence.Contracts.{is_active, second}
use argus_web_intelligence.Storage.{Database, CollectionRow, LeaseRow_key}
use argus_web_intelligence.Storage.Queue.{
  Round, claimed, new_lease, claim_attempt, claim_next_collection, select_candidate, is_claimable,
  is_free,
}
use argus_web_intelligence.Storage.Queue.Taking.{lease_of}
use argus_web_intelligence.Storage.Queue.Metrics.{
  AddsUp, reported, queue_metrics, queue_metrics-AddsUp,
}
use argus_web_intelligence.Storage.Queue.Selection.{ComeAfter}
use argus_web_intelligence.Storage.Queue.Claiming.{
  claim_attempt-exclusive, claim_attempt_fifo, claim_next_collection_returns,
  claim_next_collection-none,
}
use argus_web_intelligence.Storage.Queue.History.{
  takes, waits, Moment, run, step, HasNoLease, lease_of-run, run-HasNoLease,
}
use argus_web_intelligence.Storage.Examples.{two_waiting, calm, leased, lease}

oldest_first : (claim_attempt code_point_le "w-1" 0 (calm 100) two_waiting).0 ≡ claimed "c-1"
unfolding claim_attempt code_point_le upsert find order_by is_active select_candidate is_free
oldest_first = refl

claim_attempt-exclusive_example :
    lease_of "c-1" (claim_attempt code_point_le "w-1" 0 (calm 100) two_waiting).1
    ≡ some (new_lease "c-1" "w-1" 100 (max second 0))
claim_attempt-exclusive_example =
    (claim_attempt-exclusive code_point_le "w-1" 0 (calm 100) two_waiting "c-1" oldest_first).0

claim_attempt_fifo_example :
    (row : CollectionRow) × Mem row two_waiting.collections
    × (row.collection_id ≡ "c-1")
    × (is_active row.status ≡ true)
    × (is_free 100 (lease_of "c-1" two_waiting) ≡ true)
    × ((calm 100).locked "c-1" ≡ false)
    × ComeAfter code_point_le (calm 100) two_waiting row.created_at "c-1"
claim_attempt_fifo_example =
    claim_attempt_fifo code_point_le "w-1" 0 (calm 100) two_waiting "c-1" code_point_le-TotalOrder
      oldest_first

-- In the first round another worker takes c-1 between the two statements.
abbrev raced : Round
raced = record {
  locked = λ _. false;
  now = 100;
  between = λ db. record db { leases = lease "c-1" "w-2" (5 * second) ∷ [] };
}

claim_next_collection_returns_example :
    (r : Option String) × ((claim_next_collection code_point_le "w-1" 0
        ((raced ∷ []) ++ calm 200 ∷ [])
        two_waiting).0
      ≡ some r)
claim_next_collection_returns_example =
    claim_next_collection_returns code_point_le "w-1" 0 (raced ∷ []) (calm 200) [] two_waiting
      (λ db. refl) code_point_le-TotalOrder

lost_race_goes_on :
    (claim_next_collection code_point_le "w-1" 0 (raced ∷ calm 200 ∷ []) two_waiting).0
    ≡ some (some "c-2")
unfolding claim_next_collection claim_attempt code_point_le upsert find order_by is_active
    select_candidate is_free
lost_race_goes_on = refl

-- Other workers have both collections.
abbrev taken : Database
taken = record two_waiting {
  leases = lease "c-1" "w-2" (5 * second) ∷ lease "c-2" "w-3" (5 * second) ∷ [];
}

nothing_to_claim : (claim_next_collection code_point_le "w-1" 0 (calm 200 ∷ []) taken).0 ≡ some none
unfolding claim_next_collection claim_attempt order_by select_candidate is_free is_active find
nothing_to_claim = refl

claim_next_collection-none_example :
    All (λ row. is_claimable (calm 200) taken.leases row ≡ false) taken.collections
    × ((claim_next_collection code_point_le "w-1" 0 (calm 200 ∷ []) taken).1 ≡ taken)
claim_next_collection-none_example =
    claim_next_collection-none code_point_le "w-1" 0 (calm 200) [] taken (λ db. refl)
      code_point_le-TotalOrder nothing_to_claim

leased-Unique : Unique leased.leases
unfolding find
leased-Unique = (refl, tt)

abbrev start : Moment
start = record { now = 0; db = leased }

w-2_is_other : ◌≢◌ {A = String} "w-2" "w-1"
w-2_is_other = ground (arith, eq_iff "w-2" "w-1")

lease_of-run_example :
    lease_of "c-1" (run (takes "w-2" second "c-1" ∷ waits second ∷ []) start).db
    ≡ some (lease "c-1" "w-1" (5 * second))
unfolding find run step
lease_of-run_example =
    lease_of-run "c-1" (takes "w-2" second "c-1" ∷ waits second ∷ []) start
      (lease "c-1" "w-1" (5 * second)) leased-Unique refl (w-2_is_other, (tt, tt)) (omega arith)

not_w-2 : HasNoLease leased "c-1" "w-2"
unfolding find
not_w-2 l e = ground (arith, e, eq_iff "w-1" "w-2")

run-HasNoLease_example : HasNoLease (run (waits (9 * second) ∷ []) start).db "c-1" "w-2"
run-HasNoLease_example =
    run-HasNoLease "c-1" "w-2" (waits (9 * second) ∷ []) start leased-Unique (tt, tt) not_w-2

queue_metrics-AddsUp_example : AddsUp 100 leased (reported 100 7 leased)
unfolding queue_metrics
queue_metrics-AddsUp_example = queue_metrics-AddsUp 100 7 leased (reported 100 7 leased) refl
