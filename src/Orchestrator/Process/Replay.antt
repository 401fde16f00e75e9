-- ===== src/Orchestrator/Process/Replay.antt =====
-- A run that has been cut off can be taken up again from what is stored.
use argus_web_intelligence.Prelude.{
  ℕ, ltb, String, true, List, [], ◌∷◌, Option, some, ◌≡◌, refl, Bool-cases, inl, inr,
}
use argus_web_intelligence.Prelude.Action.{Result, ok, err, continue, pure}
use argus_web_intelligence.Prelude.Sets.{elem}
use argus_web_intelligence.Contracts.{CollectionRecord}
use argus_web_intelligence.Orchestrator.{SourceTask, Repository, Progress}
use argus_web_intelligence.Orchestrator.Tasks.{load_tasks}
use argus_web_intelligence.Orchestrator.Turn.{Turn, Settings}
use argus_web_intelligence.Orchestrator.Process.{
  Step, next, deadline, stopped, turn, Loop, left, returned, out_of_turns, loop, process, begin,
}
use argus_web_intelligence.Orchestrator.Process.Turns.{Goes}
use argus_web_intelligence.Orchestrator.Process.Runs.{Sound, turn-Sound, begin-Sound}
use argus_web_intelligence.Orchestrator.Process.Recovery.{
  Faithful, fresh, Stores, InSync, After, turn-After,
}

-- Two runs that have the same to do: the same tasks are done, and the others stand in one order.
pub record Alike (p q : Progress) : Type 0 where
  pub same_collection : q.collection ≡ p.collection
  pub same_tasks : fresh p.visited q.pending ≡ fresh p.visited p.pending
  pub same_visited : (k : String) → elem k q.visited ≡ elem k p.visited
  pub same_queries :
      (k : String) → elem k q.historical_branch_queries ≡ elem k p.historical_branch_queries

begin-Faithful :
    (r : CollectionRecord) (tasks : List SourceTask)
    → load_tasks r ≡ some tasks
    → Faithful (begin r tasks)
unfolding begin
begin-Faithful r tasks e = record {
  loaded = tasks;
  loads = e;
  same_tasks = refl;
  same_visited = λ k. refl;
  same_queries = λ k. refl;
}

Faithful-Alike : (p : Progress) (f : Faithful p) → Alike p (begin p.collection f.loaded)
unfolding begin
Faithful-Alike p f = record {
  same_collection = refl;
  same_tasks = f.same_tasks;
  same_visited = f.same_visited;
  same_queries = f.same_queries;
}

module _ {S E : Type 0} (repository : Repository S E) (settings : Settings) (started_at : ℕ) where
  -- The variables and the store that a run has come to by its turns.
  pub data Reached (p : Progress) (s : S) : Progress → S → Type 0 where
    here : Reached p s p s
    then :
        {q r : Progress} {u v : S} (t : Turn E) (task : SourceTask) (pending : List SourceTask)
        → Reached p s q u
        → q.pending ≡ task ∷ pending
        → turn repository settings started_at t task pending q u ≡ (ok (next r), v)
        → Reached p s r v

  module _ (Valid : S → Type 0) (id : String) (saved : S → Option CollectionRecord) where
    -- From the store, the run of a collection can be taken up where it stood.
    pub record Resumes (p : Progress) (s : S) : Type 0 where
      pub stored : CollectionRecord
      pub tasks : List SourceTask
      pub found : saved s ≡ some stored
      pub loads : load_tasks stored ≡ some tasks
      pub alike : Alike p (begin stored tasks)

    -- The store after a loop: the run stands as it was left, or as it stood at the start of the turn
    -- that ended it.
    abbrev pub Ended : Progress → S → Result E Loop × S → Type 0
    Ended p s (ok (left b q), u) = Sound p q × Resumes q u
    Ended p s (ok returned, u) =
        (q : Progress) × (v : S) × Reached p s q v × Sound p q × Resumes q u
    Ended p s (ok out_of_turns, u) =
        (q : Progress) × (v : S) × Reached p s q v × Sound p q × Resumes q u
    Ended p s (err e, u) = (q : Progress) × (v : S) × Reached p s q v × Sound p q × Resumes q u

    module _ (stores : Stores Valid id saved repository) where
      resumes : (q : Progress) (u : S) → InSync Valid id saved q u → Resumes q u
      resumes q u (v, k, e, f) = record {
        stored = q.collection;
        tasks = f.loaded;
        found = e;
        loads = f.loads;
        alike = Faithful-Alike q f;
      }

      -- What the loop does with the result of a turn.
      turned :
          (p : Progress) (s : S) (ts : List (Turn E)) (q : Progress) (v : S)
          → Reached p s q v
          → Sound p q
          → (t : Turn E) (task : SourceTask) (pending : List SourceTask)
          → q.pending ≡ task ∷ pending
          → (x : Result E Step) (u : S)
          → turn repository settings started_at t task pending q v ≡ (x, u)
          → ((r : Progress) (w : S)
              → Reached p s r w
              → Sound p r
              → InSync Valid id saved r w
              → Ended p s (loop repository settings started_at ts r.pending r w))
          → Goes (Sound p) (Sound p) (x, u)
          → After Valid id saved q (x, u)
          → Ended p s (
              continue x
                (λ step. elim step [
                  | next r ↦ loop repository settings started_at ts r.pending r
                  | deadline r ↦ pure (left true r)
                  | stopped ↦ pure returned
                ])
                u)
      turned p s ts q v h g t task pending e (ok (next r)) u b rest k i =
          rest r u (Reached.then t task pending h e b) k i
      turned p s ts q v h g t task pending e (ok (deadline r)) u b rest k i = (k, resumes r u i)
      turned p s ts q v h g t task pending e (ok stopped) u b rest k i = (q, v, h, g, resumes q u i)
      turned p s ts q v h g t task pending e (err x) u b rest k i = (q, v, h, g, resumes q u i)

      loop-Ended :
          (p : Progress) (s : S) (ts : List (Turn E)) (queue : List SourceTask) (q : Progress)
          (v : S)
          → Reached p s q v
          → Sound p q
          → InSync Valid id saved q v
          → q.pending ≡ queue
          → Ended p s (loop repository settings started_at ts queue q v)
      unfolding loop
      loop-Ended p s ts [] q v h g i e = (g, resumes q v i)
      loop-Ended p s [] (task ∷ pending) q v h g i e =
          elim (Bool-cases (ltb q.processed q.collection.request.constraints.max_pages)) [
            | inl l ↦ rw l (q, v, h, g, resumes q v i)
            | inr l ↦ rw l (g, resumes q v i)
          ]
      loop-Ended p s (t ∷ ts) (task ∷ pending) q v h g i e =
          elim (Bool-cases (ltb q.processed q.collection.request.constraints.max_pages)) [
            | inl l ↦ rw l (
                let (r, u) = turn repository settings started_at t task pending q v in
                turned p s ts q v h g t task pending e r u refl
                  (λ r' w h' g' i'. loop-Ended p s ts r'.pending r' w h' g' i' refl)
                  (turn-Sound repository settings started_at p q v t task pending g l)
                  (turn-After Valid id saved repository settings stores started_at t task pending q
                    v e i))
            | inr l ↦ rw l (g, resumes q v i)
          ]

      -- From a stored record of which `tasks` are the queued tasks, the loop may be left, or be cut
      -- off in any turn: in each case a run that is taken up from the store has the same tasks done,
      -- the same queries asked and the same tasks to do, in one order, as the run that ended: with
      -- the variables that it left, or those of the last turn that it completed.
      pub process-Ended :
          (r : CollectionRecord) (tasks : List SourceTask) (turns : List (Turn E)) (s : S)
          → Valid s
          → r.collection_id ≡ id
          → saved s ≡ some r
          → load_tasks r ≡ some tasks
          → Ended (begin r tasks) s (process repository settings started_at turns (begin r tasks) s)
      unfolding process begin
      process-Ended r tasks turns s v k e l =
          loop-Ended (begin r tasks) s turns (begin r tasks).pending (begin r tasks) s here
            (begin-Sound r tasks) (v, k, e, begin-Faithful r tasks l) refl
