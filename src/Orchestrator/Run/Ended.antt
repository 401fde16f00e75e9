-- ===== src/Orchestrator/Run/Ended.antt =====
-- What a run leaves behind, when it is done.
use argus_web_intelligence.Prelude.{
  ℕ, String, Bool, true, false, ◌||◌, when_none, List, Option, none, some, ◌≡◌, refl, arith,
  Bool-cases, inl, inr,
}
use argus_web_intelligence.Prelude.Action.{Action, Result, ok, err, ◌>>=◌, ◌>>◌, pure, continue}
use argus_web_intelligence.Contracts.{CollectionRecord, is_finished, is_cancelled, Observation}
use argus_web_intelligence.Contracts.Values.{get_member, as_texts}
use argus_web_intelligence.Orchestrator.{SourceTask, Repository, Progress}
use argus_web_intelligence.Orchestrator.Final.{final_status, settled, is_full}
use argus_web_intelligence.Orchestrator.Turn.{Settings}
use argus_web_intelligence.Orchestrator.Process.{
  Ending, done, cancelled_seen, unfinished, is_stored_cancelled, is_cancelled_now, process, begin,
  ensure_execution_budget_started, finish, conclude_loop, Loop, left, returned, out_of_turns,
}
use argus_web_intelligence.Orchestrator.Planning.{ResearchPlan}
use argus_web_intelligence.Orchestrator.Run.{
  Surroundings, Exceptions, Planned, planned_record, planning, end_loop, run_loop, run_or_close,
  prepare, run_plan, store_failure, fail_latest, try_run, lift, without_tasks, failed_record,
  run_tasks, execute, or_seen, attempt_run, record_exception, guard, run_found, run,
}

-- Whatever the flags are, the status at the end of the loop is a finished one.
final_status-finished :
    (allow found b s e x : Bool) → is_finished (final_status allow found b s e x) ≡ true
unfolding final_status is_finished
final_status-finished true true b s e x = ground arith
final_status-finished true false b s e x = ground arith
final_status-finished false true b s e x = ground arith
final_status-finished false false b s e x = ground arith

settled-finished :
    (settings : Settings) (started_at updated_at : ℕ) (time_exhausted : Bool)
    (observations : List Observation) (p : Progress)
    → is_finished (settled settings started_at updated_at time_exhausted observations p).status
      ≡ true
unfolding settled
settled-finished settings started_at updated_at time_exhausted observations p =
    search final_status-finished

without_tasks-finished :
    (now : ℕ) (blocked : Bool) (r : CollectionRecord)
    → is_finished (without_tasks now blocked r).status ≡ true
unfolding without_tasks is_finished
without_tasks-finished now true r = refl
without_tasks-finished now false r = refl

failed_record-finished :
    (now : ℕ) (message : String) (has_data : Bool) (r : CollectionRecord)
    → is_finished (failed_record now message has_data r).status ≡ true
unfolding failed_record is_finished
failed_record-finished now message has_data r = ground arith

module _ {S E : Type 0} (repository : Repository S E) where
  -- The last call of a run that is done: the update of a record with a finished status.
  pub record Closed (s : S) : Type 0 where
    pub last : CollectionRecord
    pub before : S
    pub accepted : repository.update_collection last before ≡ (ok tt, s)
    pub finished : is_finished last.status ≡ true

  abbrev pub Finishes : Result E Ending × S → Type 0
  Finishes (ok done, s) = Closed s
  Finishes (ok cancelled_seen, s) = Unit {0}
  Finishes (ok unfinished, s) = Unit {0}
  Finishes (err e, s) = Unit {0}

  then-Finishes :
      {A : Type 0} (m : Action S E A) (k : A → Action S E Ending)
      → ((a : A) (s : S) → Finishes (k a s))
      → (s : S) → Finishes ((m >>= k) s)
  then-Finishes m k h s = let (r, u) = m s in after r u
    where
      after : (r : Result E _) (u : S) → Finishes (continue r k u)
      after (ok a) u = h a u
      after (err e) u = tt

  written-Finishes :
      (r : CollectionRecord) (s : S)
      → is_finished r.status ≡ true
      → Finishes ((repository.update_collection r >> pure done) s)
  written-Finishes r s h = after (repository.update_collection r s) refl
    where
      after :
          (o : Result E (Unit {0}) × S)
          → repository.update_collection r s ≡ o
          → Finishes (continue o.0 (λ _. pure done) o.1)
      after (ok tt, u) e = record { last = r; before = s; accepted = e; finished = h }
      after (err x, u) e = tt

module _ {S E : Type 0} (repository : Repository S E) (settings : Settings) where
  conclude_loop-Finishes :
      (started_at updated_at : ℕ) (time_exhausted : Bool) (p : Progress) (stop : Bool) (s : S)
      → Finishes repository
          (conclude_loop repository settings started_at updated_at time_exhausted p stop s)
  unfolding conclude_loop
  conclude_loop-Finishes started_at updated_at time_exhausted p true s = tt
  conclude_loop-Finishes started_at updated_at time_exhausted p false s =
      then-Finishes repository (repository.list_observations p.collection.collection_id)
        (λ observations.
          repository.update_collection
            (settled settings started_at updated_at time_exhausted observations p)
          >> pure done)
        (λ observations u.
          written-Finishes repository
            (settled settings started_at updated_at time_exhausted observations p) u
            (settled-finished settings started_at updated_at time_exhausted observations p))
        s

  finish-Finishes :
      (started_at : ℕ) (here : Bool) (updated_at : ℕ) (time_exhausted : Bool) (p : Progress) (s : S)
      → Finishes repository
          (finish repository settings started_at here updated_at time_exhausted p s)
  unfolding finish
  finish-Finishes started_at here updated_at time_exhausted p s =
      then-Finishes repository (is_cancelled_now repository here p.collection.collection_id)
        (conclude_loop repository settings started_at updated_at time_exhausted p)
        (conclude_loop-Finishes started_at updated_at time_exhausted p) s

  module _ (exceptions : Exceptions E) (w : Surroundings E) where
    end_loop-Finishes :
        (started_at : ℕ) (loop : Loop) (s : S)
        → Finishes repository (end_loop repository settings exceptions w started_at loop s)
    unfolding end_loop
    end_loop-Finishes started_at (left exhausted p) s =
        finish-Finishes started_at w.cancelled_at_end w.now exhausted p s
    end_loop-Finishes started_at returned s = tt
    end_loop-Finishes started_at out_of_turns s = tt

    run_loop-Finishes :
        (pending : List SourceTask) (b : ℕ × CollectionRecord) (s : S)
        → Finishes repository (run_loop repository settings exceptions w pending b s)
    unfolding run_loop
    run_loop-Finishes pending (started_at, r) s =
        then-Finishes repository (process repository settings started_at w.turns (begin r pending))
          (end_loop repository settings exceptions w started_at) (end_loop-Finishes started_at) s

    run_or_close-Finishes :
        (d : Planned) (r : CollectionRecord) (a : Unit {0}) (s : S)
        → Finishes repository (run_or_close repository settings exceptions w d r a s)
    unfolding run_or_close run_tasks
    run_or_close-Finishes d r a s =
        elim (Bool-cases
          (is_full d.pending || is_full (as_texts (get_member "visited" r.checkpoint)))) [
            | inl work ↦ rw work (
                then-Finishes repository
                  (ensure_execution_budget_started repository settings w.now w.now r)
                  (run_loop repository settings exceptions w d.pending)
                  (run_loop-Finishes d.pending) s)
            | inr nothing ↦ rw nothing (
                written-Finishes repository (without_tasks w.now d.blocked r) s
                  (without_tasks-finished w.now d.blocked r))
          ]

    execute-Finishes :
        (plan : ResearchPlan) (d : Planned) (s : S)
        → Finishes repository (execute repository settings exceptions w plan d s)
    unfolding execute
    execute-Finishes plan d s =
        then-Finishes repository (repository.update_collection (planned_record plan d))
          (run_or_close repository settings exceptions w d (planned_record plan d))
          (run_or_close-Finishes d (planned_record plan d)) s

    or_seen-Finishes :
        (m : Action S E (Option Planned)) (k : Planned → Action S E Ending)
        → ((d : Planned) (u : S) → Finishes repository (k d u))
        → (s : S) → Finishes repository ((m >>= or_seen repository settings exceptions w k) s)
    unfolding or_seen
    or_seen-Finishes m k h s =
        then-Finishes repository m (or_seen repository settings exceptions w k) given s
      where
        given :
            (o : Option Planned) (u : S)
            → Finishes repository (or_seen repository settings exceptions w k o u)
        given none u = tt
        given (some d) u = h d u

    attempt_run-Finishes :
        (r : CollectionRecord) (s : S)
        → Finishes repository (attempt_run repository settings exceptions w r s)
    unfolding attempt_run run_plan prepare
    attempt_run-Finishes r s =
        then-Finishes repository (lift repository settings exceptions w w.plan)
          (run_plan repository settings exceptions w r)
          (λ plan. or_seen-Finishes _ (prepare repository settings exceptions w r plan) (λ d.
            or_seen-Finishes _ (execute repository settings exceptions w plan)
              (execute-Finishes plan)))
          s

    fail_latest-Finishes :
        (r : CollectionRecord) (e : E) (latest : Option CollectionRecord) (s : S)
        → Finishes repository (fail_latest repository settings exceptions w r e latest s)
    unfolding fail_latest store_failure
    fail_latest-Finishes r e latest s = elim (Bool-cases (is_stored_cancelled latest)) [
      | inl seen ↦ rw seen tt
      | inr open_still ↦ rw open_still (
          then-Finishes repository (repository.list_observations r.collection_id)
            (store_failure repository settings exceptions w (when_none latest r) e)
            (λ observations u.
              written-Finishes repository
                (failed_record w.now (exceptions.message e) (is_full observations)
                  (when_none latest r))
                u
                (failed_record-finished w.now (exceptions.message e) (is_full observations)
                  (when_none latest r)))
            s)
    ]

    guard-Finishes :
        (r : CollectionRecord) (o : Result E Ending × S)
        → Finishes repository o
        → Finishes repository (guard repository settings exceptions w r o)
    unfolding guard record_exception
    guard-Finishes r (ok x, s) h = h
    guard-Finishes r (err e, s) h = elim (Bool-cases (exceptions.is_cancellation e)) [
      | inl cancelled ↦ rw cancelled tt
      | inr other ↦ rw other (
          then-Finishes repository (repository.get_collection r.collection_id)
            (fail_latest repository settings exceptions w r e) (fail_latest-Finishes r e) s)
    ]

    run_found-Finishes :
        (found : Option CollectionRecord) (s : S)
        → Finishes repository (run_found repository settings exceptions w found s)
    unfolding run_found try_run
    run_found-Finishes none s = tt
    run_found-Finishes (some r) s = elim (Bool-cases (is_cancelled r.status)) [
      | inl seen ↦ rw seen tt
      | inr open_still ↦ rw open_still (
          then-Finishes repository (repository.update_collection (planning w.now r))
            (try_run repository settings exceptions w (planning w.now r))
            (λ _ u.
              guard-Finishes (planning w.now r)
                (attempt_run repository settings exceptions w (planning w.now r) u)
                (attempt_run-Finishes (planning w.now r) u))
            s)
    ]

    -- A run that is done, however its turns and the search went, and whatever was raised in between,
    -- has stored a finished status: its last call was the update of a record that is completed,
    -- partial, blocked, failed or cancelled, and the repository has accepted it.
    pub run-Finishes :
        (collection_id : String) (s : S)
        → Finishes repository (run repository settings exceptions w collection_id s)
    unfolding run
    run-Finishes collection_id s =
        then-Finishes repository (repository.get_collection collection_id)
          (run_found repository settings exceptions w) run_found-Finishes s
