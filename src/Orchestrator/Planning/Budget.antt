-- ===== src/Orchestrator/Planning/Budget.antt =====
-- The budget of search queries.
use argus_web_intelligence.Prelude.{
  ℕ, suc, ◌+◌, ◌≤◌, max, leb, length, length-take-le, length-append, keep, String, Bool, true,
  false, not, List, [], ◌∷◌, arith, Bool-cases, if◌then◌else◌, inl, inr, ◌≡◌,
}
use Prim.Native.Nat.{◌/◌}
use argus_web_intelligence.Prelude.Text.{is_blank}
use argus_web_intelligence.Prelude.Action.{Result, ok, err, continue, pure, ◌>>=◌}
use argus_web_intelligence.Contracts.{CollectionRecord, CollectionRequest}
use argus_web_intelligence.Contracts.Values.{get_member, as_texts}
use argus_web_intelligence.Orchestrator.{SourceTask, Repository, DiscoveryOutcome}
use argus_web_intelligence.Orchestrator.Process.{is_cancelled_now}
use argus_web_intelligence.Orchestrator.Planning.{
  Discovery, Ask, ResearchPlan, allotted, after_search, without_queries, exhausted, with_direct,
  progressed, checkpoint, search, research, raised, ask, ask_each, direct_tasks, discovery_start,
  discover_uncovered_intents, uncompleted,
}

-- The queries so far and those that remain are no more than `limit`.
abbrev Within : ℕ → Discovery → Type 0
Within limit d = length d.queries + d.remaining ≤ limit

-- A search takes no more queries than remain.
allotted-le :
    (remaining intents : ℕ) (queries : List String)
    → leb remaining 0 ≡ false
    → length (allotted remaining intents queries) ≤ remaining
unfolding allotted
allotted-le remaining intents queries h =
    let le = length-take-le (max 1 (remaining / intents)) (keep (λ q. not (is_blank q)) queries) in
    ground (arith, le, h)

searched-Within :
    (limit : ℕ) (intent : String) (queries : List String) (o : DiscoveryOutcome) (d : Discovery)
    → Within limit d
    → length queries ≤ d.remaining
    → Within limit (after_search intent queries o d)
unfolding after_search
searched-Within limit intent queries o d h l = omega (arith, length-append d.queries queries, h, l)

abbrev pub Keeps : {S E : Type 0} → ℕ → Result E Discovery × S → Type 0
Keeps limit (ok d, s) = Within limit d
Keeps limit (err e, s) = Unit {0}

module _ {S E : Type 0} (repository : Repository S E) (limit : ℕ) where
  checkpoint-Keeps :
      (updated_at : ℕ) (d : Discovery) (s : S)
      → Within limit d
      → Keeps limit (checkpoint repository updated_at d s)
  unfolding checkpoint
  checkpoint-Keeps updated_at d s h =
      let (r, u) = repository.update_collection (progressed updated_at d) s in written r u
    where
      written :
          (r : Result E (Unit {0})) (u : S)
          → Keeps limit
              (continue r (λ _. pure (record d { collection = progressed updated_at d })) u)
      written (ok a) u = h
      written (err e) u = tt

  search-Keeps :
      (a : Ask E) (request : CollectionRequest) (intent : String) (queries : List String)
      (d : Discovery) (s : S)
      → Within limit d
      → length queries ≤ d.remaining
      → Keeps limit (search repository a request intent queries d s)
  unfolding search without_queries raised
  search-Keeps a request intent [] d s h l =
      checkpoint-Keeps a.updated_at (without_queries intent d) s h
  search-Keeps a request intent (q ∷ qs) d s h l = answered (a.discover (q ∷ qs) request)
    where
      answered :
          (r : Result E DiscoveryOutcome)
          → Keeps limit (
              continue r
                (λ o. checkpoint repository a.updated_at (after_search intent (q ∷ qs) o d))
                s)
      answered (ok o) =
          checkpoint-Keeps a.updated_at (after_search intent (q ∷ qs) o d) s
            (searched-Within limit intent (q ∷ qs) o d h l)
      answered (err e) = tt

  research-Keeps :
      (a : Ask E) (request : CollectionRequest) (intent : String) (intents : ℕ)
      (plan : ResearchPlan) (direct : List SourceTask) (d : Discovery) (s : S)
      → Within limit d
      → leb d.remaining 0 ≡ false
      → Keeps limit (research repository a request intent intents plan direct d s)
  unfolding research with_direct
  research-Keeps a request intent intents plan (t ∷ ts) d s h l =
      checkpoint-Keeps a.updated_at (with_direct intent (t ∷ ts) d) s h
  research-Keeps a request intent intents plan [] d s h l =
      search-Keeps a request intent (allotted d.remaining intents plan.queries) d s h
        (allotted-le d.remaining intents plan.queries l)

  ask-Keeps :
      (a : Ask E) (intent : String) (intents : ℕ) (d : Discovery) (s : S)
      → Within limit d
      → leb d.remaining 0 ≡ false
      → Keeps limit (ask repository a intent intents d s)
  unfolding ask raised
  ask-Keeps a intent intents d s h l = planned (a.plan request)
    where
      request : CollectionRequest
      request = record d.collection.request { intents = intent ∷ [] }

      planned :
          (r : Result E ResearchPlan)
          → Keeps limit (
              continue r
                (λ plan.
                  research repository a request intent intents plan
                    (direct_tasks plan.tasks intent)
                    d)
                s)
      planned (ok plan) =
          research-Keeps a request intent intents plan (direct_tasks plan.tasks intent) d s h l
      planned (err e) = tt

  -- The rest of the loop, after the question whether the collection has been cancelled.
  rest-Keeps :
      (asks : ℕ → Ask E) (intent : String) (intents : List String) (d : Discovery)
      (r : Result E Bool) (u : S)
      → Within limit d
      → ((d' : Discovery) (v : S)
          → Within limit d'
          → Keeps limit (ask_each repository (λ i. asks (suc i)) intents d' v))
      → Keeps limit (
          continue r
            (λ stop.
              if stop
              then pure d
              else if leb d.remaining 0
              then checkpoint repository (asks 0).updated_at (exhausted (intent ∷ intents) d)
              else (ask repository (asks 0) intent (suc (length intents)) d >>= λ d'.
                  ask_each repository (λ i. asks (suc i)) intents d'))
            u)
  unfolding exhausted
  rest-Keeps asks intent intents d (err e) u h more = tt
  rest-Keeps asks intent intents d (ok true) u h more = h
  rest-Keeps asks intent intents d (ok false) u h more = elim (Bool-cases (leb d.remaining 0)) [
    | inl l ↦ rw l (checkpoint-Keeps (asks 0).updated_at (exhausted (intent ∷ intents) d) u h)
    | inr l ↦ rw l (
        let (r, v) = ask repository (asks 0) intent (suc (length intents)) d u in
        asked r v (ask-Keeps (asks 0) intent (suc (length intents)) d u h l))
  ]
    where
      asked :
          (r : Result E Discovery) (v : S)
          → Keeps limit (r, v)
          → Keeps limit (continue r (λ d'. ask_each repository (λ i. asks (suc i)) intents d') v)
      asked (ok d') v k = more d' v k
      asked (err e) v k = tt

  ask_each-Keeps :
      (asks : ℕ → Ask E) (intents : List String) (d : Discovery) (s : S)
      → Within limit d
      → Keeps limit (ask_each repository asks intents d s)
  unfolding ask_each
  ask_each-Keeps asks [] d s h = h
  ask_each-Keeps asks (intent ∷ intents) d s h =
      let (r, u) =
        is_cancelled_now repository (asks 0).cancelled_here d.collection.collection_id s in
      rest-Keeps asks intent intents d r u h
        (λ d' v k. ask_each-Keeps (λ i. asks (suc i)) intents d' v k)

-- What holds of the variables, if the method returns.
abbrev pub Returns : {S E : Type 0} → (Discovery → Type 0) → Result E Discovery × S → Type 0
Returns P (ok d, s) = P d
Returns P (err e, s) = Unit {0}

bounded :
    {S E : Type 0} (limit : ℕ) (x : Result E Discovery × S)
    → Keeps limit x
    → Returns (λ d. length d.queries ≤ limit) x
bounded limit (ok d, s) h = omega (arith, h)
bounded limit (err e, s) h = tt

start-Within :
    (max_queries updated_at : ℕ) (r : CollectionRecord) (pending : List SourceTask)
    → Within
        (max (length (as_texts (get_member "discovery_queries" r.checkpoint))) (max 1 max_queries))
        (discovery_start max_queries updated_at r pending)
unfolding discovery_start
start-Within max_queries updated_at r pending = ground arith

-- When the search for pages returns, all the queries of the collection, those of earlier runs
-- included, are no more than the budget of the discovery service (one at least), or than they were
-- before, if that was more.
pub discover_uncovered_intents-bound :
    {S : Type 0} {E : Type 0} (repository : Repository S E) (max_queries updated_at : ℕ)
    (asks : ℕ → Ask E) (r : CollectionRecord) (pending : List SourceTask) (uncovered : List String)
    (s : S)
    → Returns
        (λ d.
          length d.queries
          ≤ max
              (length (as_texts (get_member "discovery_queries" r.checkpoint)))
              (max 1 max_queries))
        (discover_uncovered_intents repository max_queries updated_at asks r pending uncovered s)
unfolding discover_uncovered_intents
discover_uncovered_intents-bound {S} {E} repository max_queries updated_at asks r pending uncovered
      s =
    let d = discovery_start max_queries updated_at r pending in
    let (x, u) = repository.update_collection d.collection s in written x u
  where
    limit : ℕ
    limit =
        max (length (as_texts (get_member "discovery_queries" r.checkpoint))) (max 1 max_queries)

    start : Discovery
    start = discovery_start max_queries updated_at r pending

    written :
        (x : Result E (Unit {0})) (u : S)
        → Returns
            (λ d. length d.queries ≤ limit)
            (continue x (λ _. ask_each repository asks (uncompleted start uncovered) start) u)
    written (ok a) u = bounded limit _ (
        ask_each-Keeps repository limit asks (uncompleted start uncovered) start u
          (start-Within max_queries updated_at r pending))
    written (err e) u = tt
