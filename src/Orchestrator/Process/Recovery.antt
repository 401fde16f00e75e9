-- ===== src/Orchestrator/Process/Recovery.antt =====
-- What a replacement worker finds in the checkpoint when a run has been cut off.
use argus_web_intelligence.Prelude.{
  ℕ, leb, String, Bool, true, false, not, List, ◌∷◌, keep, Option, none, some, String_eq, ◌≡◌, refl,
  ap, subst, sym, ◌∙◌, if◌then◌else◌, Bool-cases, inl, inr,
}
use argus_web_intelligence.Prelude.Action.{Result, ok, err, continue, pure, through}
use argus_web_intelligence.Prelude.Sets.{elem, add, set_of, elem-set_of, elem-order_by}
use argus_web_intelligence.Prelude.Order.{order_by}
use argus_web_intelligence.Prelude.Collation.{code_point_le}
use argus_web_intelligence.Contracts.{
  CollectionRecord, Observation, Evidence, Snapshot, SourceCoverage,
}
use argus_web_intelligence.Contracts.Values.{Json, get_member, set_member, texts, as_texts}
use argus_web_intelligence.Contracts.Values.Laws.{
  get_member-set_member, get_member-set_member_ne, as_texts-texts,
}
use argus_web_intelligence.Orchestrator.{
  SourceTask, dedupe_key, Repository, Progress, SourceResult, Research,
}
use argus_web_intelligence.Orchestrator.Tasks.{load_tasks, task_dicts}
use argus_web_intelligence.Orchestrator.Tasks.Resumed.{load_tasks-task_dicts}
use argus_web_intelligence.Orchestrator.Final.{max_duration}
use argus_web_intelligence.Orchestrator.Turn.{
  Turn, Reply, extracted, skipped, timed_out, cancelled_by, source_error, Settings, conclude,
  worked, blame, Failure, succeed, fail, checkpoint_of, remaining,
}
use argus_web_intelligence.Orchestrator.Process.Turns.{worked-Carried, blame-Carried}
use argus_web_intelligence.Orchestrator.Process.{
  Step, next, deadline, stopped, turn, body, attempt, handle, record_failure, commit_success,
  is_cancelled_now, is_stored_cancelled,
}

-- The tasks of a queue that have not been visited.
abbrev pub fresh : List String → List SourceTask → List SourceTask
fresh visited = keep (λ t. not (elem (dedupe_key t) visited))

-- What the record of a run says is what its variables say: the tasks that are still to be visited
-- in their order, the keys that have been visited, and the queries.
pub record Faithful (p : Progress) : Type 0 where
  pub loaded : List SourceTask
  pub loads : load_tasks p.collection ≡ some loaded
  pub same_tasks : fresh p.visited loaded ≡ fresh p.visited p.pending
  pub same_visited :
      (k : String)
      → elem k (set_of (as_texts (get_member "visited" p.collection.checkpoint))) ≡ elem k p.visited
  pub same_queries :
      (k : String)
      → elem k (set_of (as_texts (get_member "historical_branch_queries" p.collection.checkpoint)))
        ≡ elem k p.historical_branch_queries

stored_set :
    (k : String) (xs : List String) (o : Option Json)
    → o ≡ some (texts (order_by code_point_le xs))
    → elem k (set_of (as_texts o)) ≡ elem k xs
stored_set k xs o e =
    ap (λ v. elem k (set_of (as_texts v))) e
    ∙ ap (λ ys. elem k (set_of ys)) (as_texts-texts (order_by code_point_le xs))
    ∙ elem-set_of k (order_by code_point_le xs)
    ∙ elem-order_by code_point_le k xs

module _ (visited queries : List String) (pending : List SourceTask) (checkpoint : Json) where
  stored_visited : Json
  stored_visited = texts (order_by code_point_le visited)

  stored_queries : Json
  stored_queries = texts (order_by code_point_le queries)

  with_visited : Json
  with_visited = set_member "visited" stored_visited checkpoint

  with_queries : Json
  with_queries = set_member "historical_branch_queries" stored_queries with_visited

  checkpoint_of-pending :
      get_member "pending_tasks" (checkpoint_of visited queries pending checkpoint)
      ≡ some (task_dicts pending)
  unfolding checkpoint_of with_visited with_queries stored_visited stored_queries
  checkpoint_of-pending = get_member-set_member "pending_tasks" (task_dicts pending) with_queries

  checkpoint_of-queries :
      get_member "historical_branch_queries" (checkpoint_of visited queries pending checkpoint)
      ≡ some (texts (order_by code_point_le queries))
  unfolding checkpoint_of with_visited with_queries stored_visited stored_queries
  checkpoint_of-queries =
      get_member-set_member_ne "historical_branch_queries" "pending_tasks" (task_dicts pending)
        with_queries refl
      ∙ get_member-set_member "historical_branch_queries" stored_queries with_visited

  checkpoint_of-visited :
      get_member "visited" (checkpoint_of visited queries pending checkpoint)
      ≡ some (texts (order_by code_point_le visited))
  unfolding checkpoint_of with_visited with_queries stored_visited stored_queries
  checkpoint_of-visited =
      get_member-set_member_ne "visited" "pending_tasks" (task_dicts pending) with_queries refl
      ∙ get_member-set_member_ne "visited" "historical_branch_queries" stored_queries with_visited
          refl
      ∙ get_member-set_member "visited" stored_visited checkpoint

conclude-Faithful :
    (task : SourceTask) (finished_at updated_at : ℕ) (coverage : SourceCoverage) (p : Progress)
    → Faithful (conclude task finished_at updated_at coverage p)
unfolding conclude
conclude-Faithful task finished_at updated_at coverage p =
    let visited = add (dedupe_key task) p.visited in
    let queries = p.historical_branch_queries in
    let c = p.collection.checkpoint in
    record {
      loaded = p.pending;
      loads = load_tasks-task_dicts _ _ (checkpoint_of-pending visited queries p.pending c);
      same_tasks = refl;
      same_visited =
          λ k. stored_set k visited _ (checkpoint_of-visited visited queries p.pending c);
      same_queries =
          λ k. stored_set k queries _ (checkpoint_of-queries visited queries p.pending c);
    }

succeed-Faithful :
    (settings : Settings) (research : Research) (task : SourceTask) (r : SourceResult) (a b c : ℕ)
    (p : Progress)
    → Faithful (succeed settings research task r a b c p)
unfolding succeed
succeed-Faithful settings research task r a b c p =
    let w = worked settings research task r a p in conclude-Faithful task b c w.1 w.0

fail-Faithful :
    (task : SourceTask) (f : Failure) (a b c : ℕ) (p : Progress) → Faithful (fail task f a b c p)
unfolding fail
fail-Faithful task f a b c p = let w = blame task f a p in conclude-Faithful task b c w.1 w.0

succeed-id :
    (settings : Settings) (research : Research) (task : SourceTask) (r : SourceResult) (a b c : ℕ)
    (p : Progress)
    → (succeed settings research task r a b c p).collection.collection_id
      ≡ p.collection.collection_id
unfolding succeed conclude
succeed-id settings research task r a b c p = (worked-Carried settings research task r a p).same_id

fail-id :
    (task : SourceTask) (f : Failure) (a b c : ℕ) (p : Progress)
    → (fail task f a b c p).collection.collection_id ≡ p.collection.collection_id
unfolding fail conclude
fail-id task f a b c p = (blame-Carried task f a p).same_id

-- A task that has been visited makes no difference.
popped-Faithful :
    (task : SourceTask) (pending : List SourceTask) (p : Progress)
    → p.pending ≡ task ∷ pending
    → elem (dedupe_key task) p.visited ≡ true
    → Faithful p
    → Faithful (record p { pending = pending })
popped-Faithful task pending p e h f = record {
  loaded = f.loaded;
  loads = f.loads;
  same_tasks =
      f.same_tasks
      ∙ ap (fresh p.visited) e
      ∙ ap (λ b. if not b then task ∷ fresh p.visited pending else fresh p.visited pending) h;
  same_visited = f.same_visited;
  same_queries = f.same_queries;
}

-- `saved` is the stored record of the collection with this identifier.
module _ {S : Type 0} (Valid : S → Type 0) (id : String) (saved : S → Option CollectionRecord) where
  -- A write that returns has stored the record, and one that raises has left it.
  abbrev pub Written : {E : Type 0} → CollectionRecord → S → Result E (Unit {0}) × S → Type 0
  Written r s (ok a, s') = Valid s' × (saved s' ≡ some r)
  Written r s (err e, s') = Valid s' × (saved s' ≡ saved s)

  -- The promises of a repository that are relied on; a call that reads changes nothing.
  pub record Stores {E : Type 0} (repository : Repository S E) : Type 0 where
    pub update_collection :
        (r : CollectionRecord) (s : S)
        → r.collection_id ≡ id
        → Valid s
        → Written r s (repository.update_collection r s)
    pub commit_task_success :
        (r : CollectionRecord) (o : List Observation) (v : List Evidence) (n : List Snapshot)
        (s : S)
        → r.collection_id ≡ id
        → Valid s
        → Written r s (repository.commit_task_success r o v n s)
    pub get_collection :
        (s : S)
        → Valid s
        → Valid (repository.get_collection id s).1
          × (saved (repository.get_collection id s).1 ≡ saved s)

  -- The stored record is the one of the run, and says what its variables say.
  abbrev pub InSync : Progress → S → Type 0
  InSync p s =
      Valid s × (p.collection.collection_id ≡ id) × (saved s ≡ some p.collection) × Faithful p

  -- After a turn: the new variables are in step with the store; a turn that ends the run, in any
  -- way, leaves the old ones so.
  abbrev pub After : {E : Type 0} → Progress → Result E Step × S → Type 0
  After p (ok (next q), s) = InSync q s
  After p (ok (deadline q), s) = InSync q s
  After p (ok stopped, s) = InSync p s
  After p (err e, s) = InSync p s

  kept-InSync : (p : Progress) (s s' : S) → Valid s' → saved s' ≡ saved s → InSync p s → InSync p s'
  kept-InSync p s s' v h (_, k, e, f) = (v, k, h ∙ e, f)

  -- A write of the new record, and then the next turn.
  write-After :
      {E : Type 0} (p q : Progress) (s : S) (r : Result E (Unit {0})) (s' : S)
      → InSync p s
      → q.collection.collection_id ≡ id
      → Faithful q
      → Written q.collection s (r, s')
      → After p (continue r (λ _. pure (next q)) s')
  write-After p q s (ok a) s' i k f (v, e) = (v, k, e, f)
  write-After p q s (err x) s' i k f (v, e) = kept-InSync p s s' v e i

  module _ {E : Type 0} (repository : Repository S E) (settings : Settings)
      (stores : Stores repository) where
    record_failure-After :
        (p q : Progress) (s : S)
        → InSync p s
        → q.collection.collection_id ≡ id
        → Faithful q
        → After p (record_failure repository settings q s)
    unfolding record_failure
    record_failure-After p q s i k f =
        let (r, s') = repository.update_collection q.collection s in
        write-After p q s r s' i k f (stores.update_collection q.collection s k i.0)

    -- The progress with the task back in its place.
    abbrev back : SourceTask → Progress → Progress
    back task p = record p { pending = task ∷ p.pending }

    handle-After :
        (t : Turn E) (left_over : ℕ) (task : SourceTask) (p : Progress) (reply : Reply E) (s : S)
        → InSync (back task p) s
        → After (back task p) (handle repository settings t left_over task p reply s)
    unfolding handle commit_success
    handle-After t left_over task p (extracted r snapshots) s i =
        let q = succeed settings t.research task r t.started_at t.finished_at t.updated_at p in
        let k =
          succeed-id settings t.research task r t.started_at t.finished_at t.updated_at p ∙ i.1 in
        let (x, s') =
          repository.commit_task_success q.collection r.observations r.evidence snapshots s in
        write-After (back task p) q s x s' i k
          (succeed-Faithful settings t.research task r t.started_at t.finished_at t.updated_at p)
          (stores.commit_task_success q.collection r.observations r.evidence snapshots s k i.0)
    handle-After t left_over task p (skipped reason) s i =
        record_failure-After (back task p) _ s i (fail-id task _ _ _ _ p ∙ i.1)
          (fail-Faithful task _ _ _ _ p)
    handle-After t left_over task p timed_out s i =
        elim (Bool-cases (leb left_over settings.source_task_timeout)) [
          | inl h ↦ rw h i
          | inr h ↦ rw h (
              record_failure-After (back task p) _ s i (fail-id task _ _ _ _ p ∙ i.1)
                (fail-Faithful task _ _ _ _ p))
        ]
    handle-After t left_over task p (cancelled_by e) s i = i
    handle-After t left_over task p (source_error message) s i =
        record_failure-After (back task p) _ s i (fail-id task _ _ _ _ p ∙ i.1)
          (fail-Faithful task _ _ _ _ p)

    attempt-After :
        (t : Turn E) (left_over : ℕ) (task : SourceTask) (p : Progress) (s : S)
        → InSync (back task p) s
        → After (back task p) (attempt repository settings t left_over task p s)
    unfolding attempt
    attempt-After t left_over task p s i = elim (Bool-cases (elem (dedupe_key task) p.visited)) [
      | inl h ↦ rw h (i.0, i.1, i.2, popped-Faithful task p.pending (back task p) refl h i.3)
      | inr h ↦ rw h (denied t.denied)
    ]
      where
        denied :
            (d : Option E)
            → After
                (back task p)
                (through d (handle repository settings t left_over task p t.reply) s)
        denied none = handle-After t left_over task p t.reply s i
        denied (some e) = i

    body-After :
        (started_at : ℕ) (t : Turn E) (task : SourceTask) (pending : List SourceTask) (p : Progress)
        (is_cancelled : Bool) (s : S)
        → InSync (record p { pending = task ∷ pending }) s
        → After
            (record p { pending = task ∷ pending })
            (body repository settings started_at t task pending
              (record p { pending = task ∷ pending })
              is_cancelled
              s)
    unfolding body
    body-After started_at t task pending p true s i = i
    body-After started_at t task pending p false s i =
        let left_over = remaining t.now started_at (max_duration p.collection) in
        elim (Bool-cases (leb left_over 0)) [
          | inl h ↦ rw h i
          | inr h ↦ rw h (attempt-After t left_over task (record p { pending = pending }) s i)
        ]

    asked-After :
        (started_at : ℕ) (t : Turn E) (task : SourceTask) (pending : List SourceTask) (p : Progress)
        (r : Result E Bool) (s : S)
        → InSync (record p { pending = task ∷ pending }) s
        → After
            (record p { pending = task ∷ pending })
            (continue r
              (body repository settings started_at t task pending
                (record p { pending = task ∷ pending }))
              s)
    asked-After started_at t task pending p (ok b) s i =
        body-After started_at t task pending p b s i
    asked-After started_at t task pending p (err e) s i = i

    answered :
        {A B : Type 0} (f : A → B) (r : Result E A) (s : S) → (continue r (λ a. pure (f a)) s).1 ≡ s
    answered f (ok a) s = refl
    answered f (err e) s = refl

    is_cancelled_now-InSync :
        (b : Bool) (p : Progress) (s : S)
        → InSync p s
        → InSync p (is_cancelled_now repository b p.collection.collection_id s).1
    unfolding is_cancelled_now
    is_cancelled_now-InSync true p s i = i
    is_cancelled_now-InSync false p s i =
        let (r, s') = repository.get_collection p.collection.collection_id s in
        let (v, same) =
          subst
            (λ k.
              Valid (repository.get_collection k s).1
              × (saved (repository.get_collection k s).1 ≡ saved s))
            (sym i.1) (stores.get_collection s i.0) in
        subst (InSync p) (sym (answered is_stored_cancelled r s')) (kept-InSync p s s' v same i)

    turn-After_record :
        (started_at : ℕ) (t : Turn E) (task : SourceTask) (pending : List SourceTask) (p : Progress)
        (s : S)
        → InSync (record p { pending = task ∷ pending }) s
        → After
            (record p { pending = task ∷ pending })
            (turn repository settings started_at t task pending
              (record p { pending = task ∷ pending })
              s)
    unfolding turn
    turn-After_record started_at t task pending p s i =
        let (r, s') = is_cancelled_now repository t.cancelled_here p.collection.collection_id s in
        asked-After started_at t task pending p r s'
          (is_cancelled_now-InSync t.cancelled_here (record p { pending = task ∷ pending }) s i)

    -- A turn keeps the store in step with the run, however it ends.
    pub turn-After :
        (started_at : ℕ) (t : Turn E) (task : SourceTask) (pending : List SourceTask) (p : Progress)
        (s : S)
        → p.pending ≡ task ∷ pending
        → InSync p s
        → After p (turn repository settings started_at t task pending p s)
    turn-After started_at t task pending p s e i =
        subst
          (λ ts.
            After (record p { pending = ts })
              (turn repository settings started_at t task pending (record p { pending = ts }) s))
          (sym e)
          (turn-After_record started_at t task pending p s
            (subst (λ ts. InSync (record p { pending = ts }) s) e i))
