-- ===== src/Orchestrator/Process/Runs.antt =====
-- What every run of the loop keeps of its variables.
use argus_web_intelligence.Prelude.{
  ℕ, ◌+◌, ◌≤◌, max, ltb, length, String, true, false, List, [], ◌∷◌, some, String_eq, ◌≡◌, refl, ap,
  sym, ◌∙◌, subst, arith, Bool-cases, inl, inr, length-append,
}
use argus_web_intelligence.Prelude.Action.{Result, ok, err, continue, pure}
use argus_web_intelligence.Prelude.Sets.{
  elem, add, Distinct, Distinct-add, Distinct-add_all, elem-add,
}
use argus_web_intelligence.Contracts.{SourceCoverage, CollectionRecord}
use argus_web_intelligence.Contracts.Values.{get_member, as_texts}
use argus_web_intelligence.Orchestrator.{SourceTask, dedupe_key, Repository, Progress}
use argus_web_intelligence.Orchestrator.Turn.{Turn, Settings, conclude}
use argus_web_intelligence.Orchestrator.Process.{
  Step, next, deadline, stopped, turn, Loop, left, returned, out_of_turns, loop, process, begin,
}
use argus_web_intelligence.Orchestrator.Process.Turns.{Carried, Goes, turn-Goes}

-- Each task is done once and counted once, and the pages that are done are within the budget, or
-- were already beyond it.
pub record Sound (start p : Progress) : Type 0 where
  pub distinct : Distinct p.visited
  pub counted : p.processed ≡ length p.visited
  pub bounded : p.processed ≤ max start.processed start.collection.request.constraints.max_pages
  pub covered :
      length p.collection.coverage + start.processed
      ≡ length start.collection.coverage + p.processed
  pub same_request : p.collection.request ≡ start.collection.request
  pub same_id : p.collection.collection_id ≡ start.collection.collection_id
  pub stays : (k : String) → elem k start.visited ≡ true → elem k p.visited ≡ true

concluded-Sound :
    (start p r : Progress) (task : SourceTask) (pending : List SourceTask) (a b : ℕ)
    (c : SourceCoverage)
    → Sound start p
    → ltb p.processed p.collection.request.constraints.max_pages ≡ true
    → elem (dedupe_key task) p.visited ≡ false
    → Carried (record p { pending = pending }) r
    → Sound start (conclude task a b c r)
unfolding conclude
concluded-Sound start p r task pending a b c f l h k =
    let new : elem (dedupe_key task) r.visited ≡ false =
      ap (elem (dedupe_key task)) k.same_visited ∙ h in
    let grown : add (dedupe_key task) r.visited ≡ dedupe_key task ∷ r.visited = rw new refl in
    let same_length = ap length k.same_visited in
    let longer = ap length grown in
    let budget = ap (λ q. q.constraints.max_pages) f.same_request in
    let coverage = ap length k.same_coverage in
    record {
      distinct =
          Distinct-add (dedupe_key task) r.visited (subst Distinct (sym k.same_visited) f.distinct);
      counted = omega (arith, k.same_processed, longer, same_length, f.counted);
      bounded = ground (arith, k.same_processed, f.bounded, l, budget);
      covered = omega (
        arith,
        length-append r.collection.coverage (record c { finished_at = some a } ∷ []),
        coverage,
        f.covered,
        k.same_processed,
      );
      same_request = k.same_request ∙ f.same_request;
      same_id = k.same_id ∙ f.same_id;
      stays = λ x m.
          let there = ap (elem x) k.same_visited ∙ f.stays x m in
          let e = elem-add x (dedupe_key task) r.visited in ground (arith, there, e);
    }

requeued-Sound :
    (start p : Progress) (ts : List SourceTask)
    → Sound start p
    → Sound start (record p { pending = ts })
requeued-Sound start p ts f = record {
  distinct = f.distinct;
  counted = f.counted;
  bounded = f.bounded;
  covered = f.covered;
  same_request = f.same_request;
  same_id = f.same_id;
  stays = f.stays;
}

pub begin-Sound : (r : CollectionRecord) (ts : List SourceTask) → Sound (begin r ts) (begin r ts)
unfolding begin
begin-Sound r ts = record {
  distinct = Distinct-add_all (as_texts (get_member "visited" r.checkpoint)) [] tt;
  counted = refl;
  bounded = ground arith;
  covered = refl;
  same_request = refl;
  same_id = refl;
  stays = λ k h. h;
}

-- What holds of the variables when the loop is left.
abbrev pub Leaves : {S E : Type 0} → (Progress → Type 0) → Result E Loop × S → Type 0
Leaves P (ok (left b q), s) = P q
Leaves P (ok returned, s) = Unit {0}
Leaves P (ok out_of_turns, s) = Unit {0}
Leaves P (err e, s) = Unit {0}

module _ {S E : Type 0} (repository : Repository S E) (settings : Settings) (started_at : ℕ) where
  pub turn-Sound :
      (start p : Progress) (s : S) (t : Turn E) (task : SourceTask) (pending : List SourceTask)
      → Sound start p
      → ltb p.processed p.collection.request.constraints.max_pages ≡ true
      → Goes (Sound start) (Sound start) (turn repository settings started_at t task pending p s)
  turn-Sound start p s t task pending f l =
      turn-Goes (Sound start) (Sound start) repository settings started_at t task pending p
        (λ ts. requeued-Sound start p ts f) (λ _. requeued-Sound start p pending f)
        (λ a b c r h k. concluded-Sound start p r task pending a b c f l h k) s

  continued :
      (start : Progress) (ts : List (Turn E)) (r : Result E Step) (u : S)
      → ((q : Progress) (v : S)
          → Sound start q
          → Leaves (Sound start) (loop repository settings started_at ts q.pending q v))
      → Goes (Sound start) (Sound start) (r, u)
      → Leaves (Sound start) (
          continue r
            (λ step. elim step [
              | next q ↦ loop repository settings started_at ts q.pending q
              | deadline q ↦ pure (left true q)
              | stopped ↦ pure returned
            ])
            u)
  continued start ts (ok (next q)) u rest g = rest q u g
  continued start ts (ok (deadline q)) u rest g = g
  continued start ts (ok stopped) u rest g = tt
  continued start ts (err e) u rest g = tt

  loop-Sound :
      (start : Progress) (ts : List (Turn E)) (queue : List SourceTask) (p : Progress) (s : S)
      → Sound start p
      → Leaves (Sound start) (loop repository settings started_at ts queue p s)
  unfolding loop
  loop-Sound start ts [] p s f = f
  loop-Sound start [] (task ∷ pending) p s f =
      elim (Bool-cases (ltb p.processed p.collection.request.constraints.max_pages)) [
        | inl h ↦ rw h tt
        | inr h ↦ rw h f
      ]
  loop-Sound start (t ∷ ts) (task ∷ pending) p s f =
      elim (Bool-cases (ltb p.processed p.collection.request.constraints.max_pages)) [
        | inl h ↦ rw h (
            let (r, u) = turn repository settings started_at t task pending p s in
            continued start ts r u (λ q v g. loop-Sound start ts q.pending q v g)
              (turn-Sound start p s t task pending f h))
        | inr h ↦ rw h f
      ]

  -- However the turns go, when the loop is left no task has been done twice; each one is counted and
  -- has one entry in the coverage; no more have been done than the page budget, or than before the
  -- run if that were more; every task that had been done before still counts as done; and the
  -- request and the identifier are the same.
  pub process-Sound :
      (r : CollectionRecord) (tasks : List SourceTask) (turns : List (Turn E)) (s : S)
      → Leaves
          (Sound (begin r tasks))
          (process repository settings started_at turns (begin r tasks) s)
  unfolding process
  process-Sound r tasks turns s =
      loop-Sound (begin r tasks) turns (begin r tasks).pending (begin r tasks) s
        (begin-Sound r tasks)
