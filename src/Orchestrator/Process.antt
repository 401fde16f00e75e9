-- ===== src/Orchestrator/Process.antt =====
-- orchestrator/atomic.py: the loop over the queued tasks.
pub mod Recovery
pub mod Turns
pub mod Runs
pub mod Replay
pub mod Ends
use argus_web_intelligence.Prelude.{
  ℕ, suc, ◌*◌, min, ltb, leb, length, any, keep, String, Bool, true, false, ◌&&◌, ◌||◌, not, List,
  [], ◌∷◌, ◌++◌, Option, none, some, String_eq, ◌==◌, if◌then◌else◌, is_some,
}
use argus_web_intelligence.Prelude.Text.{is_blank, ends_with}
use argus_web_intelligence.Prelude.Format.{concat, decimal}
use argus_web_intelligence.Prelude.Action.{
  Action, Result, ok, err, ◌>>=◌, ◌>>◌, pure, raise, continue, through,
}
use argus_web_intelligence.Prelude.Order.{order_by}
use argus_web_intelligence.Prelude.Collation.{code_point_le}
use argus_web_intelligence.Prelude.Sets.{elem, set_of}
use argus_web_intelligence.Contracts.{
  CollectionRecord, CollectionStatus, completed, partial, blocked, failed, SourceCoverage,
  StructuredError, Observation, Snapshot, is_cancelled, second,
}
use argus_web_intelligence.Contracts.Values.{
  Json, null, bool, natural, number, text, object, end, texts, as_texts, get_member, set_member,
}
use argus_web_intelligence.Orchestrator.{SourceTask, SourceResult, dedupe_key, Repository, Progress}
use argus_web_intelligence.Orchestrator.Tasks.{task_dicts}
use argus_web_intelligence.Orchestrator.Final.{settled, max_duration}
use argus_web_intelligence.Orchestrator.Turn.{
  Reply, extracted, skipped, timed_out, cancelled_by, source_error, Turn, Settings, Failure,
  succeed, fail, skip_failure, timeout_failure, source_failure, remaining,
}

-- How the loop goes on after a turn: with new variables, or it is left, or the method returns.
pub data Step : Type 0 where
  next : Progress → Step
  deadline : Progress → Step
  stopped : Step

-- How the loop ends.
pub data Loop : Type 0 where
  left : (time_exhausted : Bool) → Progress → Loop
  returned : Loop
  out_of_turns : Loop

-- What the method takes from the checkpoint at its start.
unfoldable pub begin : CollectionRecord → List SourceTask → Progress
unfolding as_texts get_member
begin r pending =
    let visited = set_of (as_texts (get_member "visited" r.checkpoint)) in
    record {
      collection = r;
      pending = pending;
      visited = visited;
      historical_branch_queries =
          set_of (as_texts (get_member "historical_branch_queries" r.checkpoint));
      processed = length visited;
    }

-- How a run ends: the collection is finished, or has been cancelled, or the turns are used up. The
-- methods return None on each of these paths; the labels are there for the theorems.
pub data Ending : Type 0 where
  done cancelled_seen unfinished : Ending

-- `record is not None and record.status == CollectionStatus.CANCELLED`
unfoldable pub is_stored_cancelled : Option CollectionRecord → Bool
is_stored_cancelled none = false
is_stored_cancelled (some r) = is_cancelled r.status

module _ {S E : Type 0} (repository : Repository S E) where
  -- CollectionOrchestrator._is_cancelled
  unfoldable pub is_cancelled_now : Bool → String → Action S E Bool
  unfolding is_stored_cancelled
  is_cancelled_now true id = pure true
  is_cancelled_now false id =
      repository.get_collection id >>= λ found. pure (is_stored_cancelled found)

  -- The two ways after the loop
  unfoldable pub conclude_loop : Settings → ℕ → ℕ → Bool → Progress → Bool → Action S E Ending
  conclude_loop settings started_at updated_at time_exhausted p true = pure cancelled_seen
  conclude_loop settings started_at updated_at time_exhausted p false =
      repository.list_observations p.collection.collection_id >>= λ observations.
      repository.update_collection
        (settled settings started_at updated_at time_exhausted observations p)
      >> pure done

  -- AtomicCollectionOrchestrator._process_tasks, after the loop
  unfoldable pub finish : Settings → ℕ → Bool → ℕ → Bool → Progress → Action S E Ending
  unfolding is_cancelled_now conclude_loop
  finish settings started_at cancelled_here updated_at time_exhausted p =
      is_cancelled_now cancelled_here p.collection.collection_id
      >>= conclude_loop settings started_at updated_at time_exhausted p

module _ {S E : Type 0} (repository : Repository S E) (settings : Settings) where
  -- The write of a failed task, then the next turn.
  record_failure : Progress → Action S E Step
  record_failure p = repository.update_collection p.collection >> pure (next p)

  -- The write of a task that went through, outside the handlers.
  commit_success : SourceResult → List Snapshot → Progress → Action S E Step
  commit_success r snapshots p =
      repository.commit_task_success p.collection r.observations r.evidence snapshots
      >> pure (next p)

  -- The reply to the task that has been taken from the queue, with the time that remains.
  handle : Turn E → ℕ → SourceTask → Progress → Reply E → Action S E Step
  unfolding record_failure commit_success
  handle t left_over task p (extracted r snapshots) =
      commit_success r snapshots
        (succeed settings t.research task r t.started_at t.finished_at t.updated_at p)
  handle t left_over task p (skipped reason) =
      record_failure (fail task (skip_failure reason) t.started_at t.finished_at t.updated_at p)
  handle t left_over task p timed_out =
      if leb left_over settings.source_task_timeout
      then pure (deadline (record p { pending = task ∷ p.pending }))
      else record_failure
          (fail task (timeout_failure settings) t.started_at t.finished_at t.updated_at p)
  handle t left_over task p (cancelled_by e) = raise e
  handle t left_over task p (source_error message) =
      record_failure (fail task (source_failure message) t.started_at t.finished_at t.updated_at p)

  attempt : Turn E → ℕ → SourceTask → Progress → Action S E Step
  unfolding handle
  attempt t left_over task p =
      if elem (dedupe_key task) p.visited
      then pure (next p)
      else through t.denied (handle t left_over task p t.reply)

  -- The body of the loop, with the queue taken apart.
  body : ℕ → Turn E → SourceTask → List SourceTask → Progress → Bool → Action S E Step
  unfolding attempt remaining max_duration
  body started_at t task pending p true = pure stopped
  body started_at t task pending p false =
      let left_over = remaining t.now started_at (max_duration p.collection) in
      if leb left_over 0
      then pure (deadline p)
      else attempt t left_over task (record p { pending = pending })

  unfoldable pub turn : ℕ → Turn E → SourceTask → List SourceTask → Progress → Action S E Step
  unfolding is_cancelled_now body
  turn started_at t task pending p =
      is_cancelled_now repository t.cancelled_here p.collection.collection_id
      >>= body started_at t task pending p

  -- `while pending and processed < total_budget`, with the queue taken apart
  loop : ℕ → List (Turn E) → List SourceTask → Progress → Action S E Loop
  unfolding turn
  loop started_at ts [] p = pure (left false p)
  loop started_at [] (task ∷ pending) p = pure (
      if ltb p.processed p.collection.request.constraints.max_pages
      then out_of_turns
      else left false p)
  loop started_at (t ∷ ts) (task ∷ pending) p =
      if ltb p.processed p.collection.request.constraints.max_pages
      then (turn started_at t task pending p >>= λ step. elim step [
        | next q ↦ loop started_at ts q.pending q
        | deadline q ↦ pure (left true q)
        | stopped ↦ pure returned
      ])
      else pure (left false p)

  -- AtomicCollectionOrchestrator._process_tasks, up to the end of the loop, over the turns that the
  -- environment makes
  unfoldable pub process : ℕ → List (Turn E) → Progress → Action S E Loop
  unfolding loop
  process started_at ts p = loop started_at ts p.pending p

  -- AtomicCollectionOrchestrator._ensure_execution_budget_started: the start, and the record
  unfoldable pub ensure_execution_budget_started :
      ℕ → ℕ → CollectionRecord → Action S E (ℕ × CollectionRecord)
  unfolding get_member set_member
  ensure_execution_budget_started now updated_at r =
      let begun = record r {
        checkpoint =
            set_member "execution_budget_started_at" (text (settings.isoformat now)) r.checkpoint;
        updated_at = updated_at;
      } in
      let written = repository.update_collection begun >> pure (now, begun) in
      elim (get_member "execution_budget_started_at" r.checkpoint) [
        | some (text raw) ↦ if is_blank raw then written else elim (settings.fromisoformat raw) [
          | some started_at ↦ pure (started_at, r)
          | none ↦ written
        ]
        | _ ↦ written
      ]
