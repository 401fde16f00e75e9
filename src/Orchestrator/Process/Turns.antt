-- ===== src/Orchestrator/Process/Turns.antt =====
-- What a turn that goes on does to the variables of the loop, whatever the repository does.
use argus_web_intelligence.Prelude.{
  ℕ, leb, String, Bool, true, false, List, [], ◌∷◌, ◌++◌, Option, none, some, String_eq, ◌≡◌, refl,
  Bool-cases, inl, inr,
}
use argus_web_intelligence.Prelude.Action.{Result, ok, err, continue, through, pure}
use argus_web_intelligence.Prelude.Sets.{elem, add_all}
use argus_web_intelligence.Contracts.{Observation, SourceCoverage}
use argus_web_intelligence.Orchestrator.{
  SourceTask, dedupe_key, Repository, Progress, SourceResult, Research, DiscoveryOutcome,
}
use argus_web_intelligence.Orchestrator.Branch.{
  expand_historical, returns_early, after_planning, after_discovery,
}
use argus_web_intelligence.Orchestrator.Final.{max_duration}
use argus_web_intelligence.Orchestrator.Turn.{
  Turn, Reply, extracted, skipped, timed_out, cancelled_by, source_error, Settings, conclude,
  worked, covered, opening, broken, queue_children, branch, after_branch, append_error, succeed,
  fail, blame, Failure, remaining,
}
use argus_web_intelligence.Orchestrator.Process.{
  Step, next, deadline, stopped, turn, body, attempt, handle, record_failure, commit_success,
  is_cancelled_now,
}

-- What the work on a task leaves as it is, until the task is concluded.
pub record Carried (p q : Progress) : Type 0 where
  pub same_id : q.collection.collection_id ≡ p.collection.collection_id
  pub same_request : q.collection.request ≡ p.collection.request
  pub same_coverage : q.collection.coverage ≡ p.collection.coverage
  pub same_visited : q.visited ≡ p.visited
  pub same_processed : q.processed ≡ p.processed

abbrev as_it_was : {p : Progress} → Carried p p
as_it_was = record {
  same_id = refl;
  same_request = refl;
  same_coverage = refl;
  same_visited = refl;
  same_processed = refl;
}

discovered-Carried :
    (task : SourceTask) (queries : List String) (r : Result String DiscoveryOutcome) (p : Progress)
    → Carried p (after_discovery task queries r p).0
unfolding after_discovery
discovered-Carried task queries (ok outcome) p = record {
  same_id = refl;
  same_request = refl;
  same_coverage = refl;
  same_visited = refl;
  same_processed = refl;
}
discovered-Carried task queries (err message) p = as_it_was

planned-Carried :
    (research : Research) (task : SourceTask) (r : Result String (List String)) (p : Progress)
    → Carried p (after_planning research task r p).0
unfolding after_planning
planned-Carried research task (err message) p = as_it_was
planned-Carried research task (ok []) p = as_it_was
planned-Carried research task (ok (q ∷ qs)) p =
    let c =
      discovered-Carried task (q ∷ qs)
        (research.discover (q ∷ qs)
          (record p.collection.request { intents = "historical_context" ∷ [] }))
        (record p { historical_branch_queries = add_all (q ∷ qs) p.historical_branch_queries }) in
    record {
      same_id = c.same_id;
      same_request = c.same_request;
      same_coverage = c.same_coverage;
      same_visited = c.same_visited;
      same_processed = c.same_processed;
    }

expanded-Carried :
    (research : Research) (task : SourceTask) (observations : List Observation) (p : Progress)
    → Carried p (expand_historical research task observations p).0
unfolding expand_historical
expanded-Carried research task observations p =
    elim (Bool-cases (returns_early research task observations p)) [
      | inl h ↦ rw h as_it_was
      | inr h ↦ rw h (
          planned-Carried research task
            (research.expand p.collection.request observations p.historical_branch_queries) p)
    ]

after_branch-Carried :
    (task : SourceTask) (c : SourceCoverage) (p : Progress) (x : Progress × Option String)
    → Carried p x.0
    → Carried p (after_branch task c x).0
unfolding after_branch append_error
after_branch-Carried task c p (q, none) f = f
after_branch-Carried task c p (q, some message) f = record {
  same_id = f.same_id;
  same_request = f.same_request;
  same_coverage = f.same_coverage;
  same_visited = f.same_visited;
  same_processed = f.same_processed;
}

branch-Carried :
    (opened : Bool) (research : Research) (task : SourceTask) (r : SourceResult)
    (c : SourceCoverage) (p : Progress)
    → Carried p (branch opened research task r c p).0
unfolding branch
branch-Carried true research task r c p = as_it_was
branch-Carried false research task r c p =
    after_branch-Carried task c p (expand_historical research task r.observations p)
      (expanded-Carried research task r.observations p)

pub blame-Carried :
    (task : SourceTask) (f : Failure) (a : ℕ) (p : Progress) → Carried p (blame task f a p).0
unfolding blame append_error
blame-Carried task f a p = record {
  same_id = refl;
  same_request = refl;
  same_coverage = refl;
  same_visited = refl;
  same_processed = refl;
}

pub worked-Carried :
    (settings : Settings) (research : Research) (task : SourceTask) (r : SourceResult) (a : ℕ)
    (p : Progress)
    → Carried p (worked settings research task r a p).0
unfolding worked
worked-Carried settings research task r a p =
    let c = p.collection in
    let coverage = covered r (opening task a) in
    let circuit = broken settings task coverage r.blocked c.checkpoint p.pending in
    let f = branch-Carried circuit.opened research task r coverage (record p {
      collection = record c { errors = c.errors ++ r.errors; checkpoint = circuit.checkpoint };
      pending = queue_children c.collection_id p.visited r.discovered_tasks circuit.pending;
    }) in
    record {
      same_id = f.same_id;
      same_request = f.same_request;
      same_coverage = f.same_coverage;
      same_visited = f.same_visited;
      same_processed = f.same_processed;
    }

module _ (P D : Progress → Type 0) where
  -- `P` holds of the variables with which the loop goes on, `D` of those with which it is left.
  abbrev pub Goes : {S E : Type 0} → Result E Step × S → Type 0
  Goes (ok (next q), s) = P q
  Goes (ok (deadline q), s) = D q
  Goes (ok stopped, s) = Unit {0}
  Goes (err e, s) = Unit {0}

  -- It is enough that `P` holds without a task that had been visited and after the conclusion of one
  -- that had not, and `D` with any queue.
  module _ {S E : Type 0} (repository : Repository S E) (settings : Settings) (task : SourceTask)
      (p : Progress) (requeued : (ts : List SourceTask) → D (record p { pending = ts }))
      (skips : elem (dedupe_key task) p.visited ≡ true → P p)
      (concludes : (finished_at updated_at : ℕ) (coverage : SourceCoverage) (q : Progress)
        → elem (dedupe_key task) p.visited ≡ false
        → Carried p q
        → P (conclude task finished_at updated_at coverage q)) where
    written-Goes :
        (q : Progress) (r : Result E (Unit {0})) (s : S)
        → P q
        → Goes (continue {E = E} r (λ _. pure (next q)) s)
    written-Goes q (ok a) s h = h
    written-Goes q (err e) s h = tt

    recorded-Goes :
        (f : Failure) (a b c : ℕ) (s : S)
        → elem (dedupe_key task) p.visited ≡ false
        → Goes (record_failure repository settings (fail task f a b c p) s)
    unfolding record_failure fail
    recorded-Goes f a b c s h =
        let w = blame task f a p in
        let (r, s') = repository.update_collection (conclude task b c w.1 w.0).collection s in
        written-Goes (conclude task b c w.1 w.0) r s'
          (concludes b c w.1 w.0 h (blame-Carried task f a p))

    handle-Goes :
        (t : Turn E) (left_over : ℕ) (reply : Reply E) (s : S)
        → elem (dedupe_key task) p.visited ≡ false
        → Goes (handle repository settings t left_over task p reply s)
    unfolding handle commit_success succeed
    handle-Goes t left_over (extracted x snapshots) s h =
        let w = worked settings t.research task x t.started_at p in
        let q = conclude task t.finished_at t.updated_at w.1 w.0 in
        let (r, s') =
          repository.commit_task_success q.collection x.observations x.evidence snapshots s in
        written-Goes q r s' (
          concludes t.finished_at t.updated_at w.1 w.0 h
            (worked-Carried settings t.research task x t.started_at p))
    handle-Goes t left_over (skipped reason) s h = recorded-Goes _ _ _ _ s h
    handle-Goes t left_over timed_out s h =
        elim (Bool-cases (leb left_over settings.source_task_timeout)) [
          | inl e ↦ rw e (requeued (task ∷ p.pending))
          | inr e ↦ rw e (recorded-Goes _ _ _ _ s h)
        ]
    handle-Goes t left_over (cancelled_by e) s h = tt
    handle-Goes t left_over (source_error message) s h = recorded-Goes _ _ _ _ s h

    attempt-Goes :
        (t : Turn E) (left_over : ℕ) (s : S)
        → Goes (attempt repository settings t left_over task p s)
    unfolding attempt
    attempt-Goes t left_over s = elim (Bool-cases (elem (dedupe_key task) p.visited)) [
      | inl h ↦ rw h (skips h)
      | inr h ↦ rw h (looked_up t.denied h)
    ]
      where
        looked_up :
            (d : Option E)
            → elem (dedupe_key task) p.visited ≡ false
            → Goes (through d (handle repository settings t left_over task p t.reply) s)
        looked_up none h = handle-Goes t left_over t.reply s h
        looked_up (some e) h = tt

  module _ {S E : Type 0} (repository : Repository S E) (settings : Settings) (started_at : ℕ)
      (t : Turn E) (task : SourceTask) (pending : List SourceTask) (p : Progress)
      (requeued : (ts : List SourceTask) → D (record p { pending = ts }))
      (skips : elem (dedupe_key task) p.visited ≡ true → P (record p { pending = pending }))
      (concludes : (finished_at updated_at : ℕ) (coverage : SourceCoverage) (q : Progress)
        → elem (dedupe_key task) p.visited ≡ false
        → Carried (record p { pending = pending }) q
        → P (conclude task finished_at updated_at coverage q)) where
    body-Goes :
        (r : Result E Bool) (s : S)
        → Goes (continue r (body repository settings started_at t task pending p) s)
    unfolding body
    body-Goes (ok true) s = tt
    body-Goes (ok false) s =
        let left_over = remaining t.now started_at (max_duration p.collection) in
        elim (Bool-cases (leb left_over 0)) [
          | inl h ↦ rw h (requeued p.pending)
          | inr h ↦ rw h (
              attempt-Goes repository settings task (record p { pending = pending }) requeued skips
                concludes t left_over s)
        ]
    body-Goes (err e) s = tt

    pub turn-Goes : (s : S) → Goes (turn repository settings started_at t task pending p s)
    unfolding turn
    turn-Goes s =
        let (r, u) = is_cancelled_now repository t.cancelled_here p.collection.collection_id s in
        body-Goes r u
