-- ===== src/Worker/Bounded.antt =====
-- How many collections a worker has at once.
use argus_web_intelligence.Prelude.{
  ℕ, zero, suc, ◌+◌, ◌-◌, ◌≤◌, length, length-keep-le, keep, String, Bool, true, false, not, List,
  [], ◌∷◌, Option, none, some, ◌≡◌, ◌≢◌, refl, false≢true, arith, Bool-cases, inl, inr,
}
use argus_web_intelligence.Prelude.Action.{Action, Result, ok, err, continue, pure, ◌>>=◌}
use argus_web_intelligence.Prelude.Sets.{elem, add, Distinct, Distinct-add}
use argus_web_intelligence.Worker.{
  Queue, Settings, Worker, Health, cancelled_by, check_failed, checked, Round, stored,
  reap_finished, set_llm_claim_state, llm_allows_new_claims, start_task, claim_each,
  claim_available, claim_round, claim_rounds, stop_started, stop, run,
}

elem-keep :
    (f : String → Bool) (k : String) (xs : List String)
    → elem k xs ≡ false
    → elem k (keep f xs) ≡ false
elem-keep f k [] h = refl
elem-keep f k (x ∷ xs) h = let l = elem-keep f k xs in ground (arith, h, l)

Distinct-keep : (f : String → Bool) (xs : List String) → Distinct xs → Distinct (keep f xs)
Distinct-keep f [] d = tt
Distinct-keep f (x ∷ xs) (fresh, d) = elim (Bool-cases (f x)) [
  | inl h ↦ rw h (elem-keep f x xs fresh, Distinct-keep f xs d)
  | inr h ↦ rw h (Distinct-keep f xs d)
]

length-add : (x : String) (xs : List String) → length (add x xs) ≤ suc (length xs)
length-add x xs = ground arith

-- A worker has started, has each of its collections once, and no more than the limit.
pub record RunsWithin {S : Type 0} (limit : ℕ) (w : Worker S) : Type 0 where
  pub started : w.started ≡ true
  pub distinct : Distinct w.active
  pub few : length w.active ≤ limit

-- The rest of the range, by what a claim has answered.
claimed-RunsWithin :
    {S E : Type 0} (limit claimed : ℕ) (w : Worker S) (k : String → Action (Worker S) E ℕ)
    (r : Result E (Option String))
    → RunsWithin limit w
    → ((id : String) → RunsWithin limit (k id w).1)
    → RunsWithin limit
        (continue r (λ found. elim found [ none ↦ pure claimed | some id ↦ k id ]) w).1
claimed-RunsWithin limit claimed w k (err e) h more = h
claimed-RunsWithin limit claimed w k (ok none) h more = h
claimed-RunsWithin limit claimed w k (ok (some id)) h more = more id

kept :
    {S : Type 0} {limit : ℕ} {w : Worker S} {ready : Option Bool}
    → RunsWithin limit w
    → RunsWithin limit (record w { llm_claims_ready = ready })
kept h = record { started = h.started; distinct = h.distinct; few = h.few }

module _ {S E : Type 0} (repository : Queue S E) (settings : Settings) where
  claim_each-RunsWithin :
      (available claimed limit : ℕ) (w : Worker S)
      → w.started ≡ true
      → Distinct w.active
      → length w.active + available ≤ limit
      → RunsWithin limit (claim_each repository settings available claimed w).1
  unfolding claim_each stored start_task
  claim_each-RunsWithin zero claimed limit w up d h = record {
    started = up;
    distinct = d;
    few = omega (arith, h);
  }
  claim_each-RunsWithin (suc available) claimed limit w up d h =
      let (r, s) = repository.claim_next_collection w.store in
      claimed-RunsWithin limit claimed (record w { store = s })
        (λ id u.
          claim_each repository settings available (suc claimed)
            (record u { active = add id u.active }))
        r (record { started = up; distinct = d; few = omega (arith, h) })
        (λ id.
          claim_each-RunsWithin available (suc claimed) limit
            (record w { store = s; active = add id w.active }) up (Distinct-add id w.active d)
            (let l = length-add id w.active in omega (arith, h, l)))

  -- A round, after the tasks that are done have been dropped.
  claim_available-RunsWithin :
      (allowed : Bool) (w : Worker S)
      → RunsWithin settings.worker_concurrency w
      → RunsWithin settings.worker_concurrency (claim_available repository settings allowed w).1
  unfolding claim_available
  claim_available-RunsWithin false w h = h
  claim_available-RunsWithin true w h =
      claim_each-RunsWithin (settings.worker_concurrency - length w.active) 0
        settings.worker_concurrency w h.started h.distinct (let f = h.few in omega (arith, f))

  reap_finished-RunsWithin :
      (done : String → Bool) (limit : ℕ) (w : Worker S)
      → RunsWithin limit w
      → RunsWithin limit (reap_finished repository settings done w)
  unfolding reap_finished
  reap_finished-RunsWithin done limit w h = record {
    started = h.started;
    distinct = Distinct-keep (λ id. not (done id)) w.active h.distinct;
    few =
        let f = h.few in
        let l = length-keep-le (λ id. not (done id)) w.active in omega (arith, f, l);
  }

  checked-RunsWithin :
      (required : Bool) (health : Option (Health E)) (w : Worker S)
      → RunsWithin settings.worker_concurrency w
      → RunsWithin settings.worker_concurrency
          ((llm_allows_new_claims repository settings required health
              >>= claim_available repository settings)
            w).1
  unfolding llm_allows_new_claims set_llm_claim_state
  checked-RunsWithin false health w h = claim_available-RunsWithin true w h
  checked-RunsWithin true none w h = claim_available-RunsWithin false _ (kept h)
  checked-RunsWithin true (some (cancelled_by e)) w h = h
  checked-RunsWithin true (some check_failed) w h = claim_available-RunsWithin false _ (kept h)
  checked-RunsWithin true (some (checked ready)) w h = claim_available-RunsWithin ready _ (kept h)

  claim_round-RunsWithin :
      (r : Round E) (w : Worker S)
      → RunsWithin settings.worker_concurrency w
      → RunsWithin settings.worker_concurrency (claim_round repository settings r w).1
  unfolding claim_round
  claim_round-RunsWithin r w h =
      checked-RunsWithin settings.llm_required r.health (reap_finished repository settings r.done w)
        (reap_finished-RunsWithin r.done settings.worker_concurrency w h)

  claim_rounds-RunsWithin :
      (rs : List (Round E)) (w : Worker S)
      → RunsWithin settings.worker_concurrency w
      → RunsWithin settings.worker_concurrency (claim_rounds repository settings rs w).1
  unfolding claim_rounds
  claim_rounds-RunsWithin [] w h = h
  claim_rounds-RunsWithin (r ∷ rs) w h =
      let (o, u) = claim_round repository settings r w in
      after o u (claim_round-RunsWithin r w h) (claim_rounds-RunsWithin rs)
    where
      after :
          (o : Result E ℕ) (u : Worker S)
          → RunsWithin settings.worker_concurrency u
          → ((v : Worker S)
              → RunsWithin settings.worker_concurrency v
              → RunsWithin settings.worker_concurrency (claim_rounds repository settings rs v).1)
          → RunsWithin settings.worker_concurrency
              (continue o (λ _. claim_rounds repository settings rs) u).1
      after (ok n) u h rest = rest u h
      after (err e) u h rest = h

  -- A language model is required, and the check does not say that it is ready.
  abbrev pub IsPaused : Round E → Type 0
  IsPaused r = (settings.llm_required ≡ true) × (r.health ≢ some (checked true))

  paused-keeps :
      (required : Bool) (health : Option (Health E)) (w : Worker S)
      → required ≡ true
      → health ≢ some (checked true)
      → ((llm_allows_new_claims repository settings required health
            >>= claim_available repository settings)
          w).1.store
        ≡ w.store
  unfolding llm_allows_new_claims set_llm_claim_state claim_available
  paused-keeps false health w e h = absurd (false≢true e)
  paused-keeps true none w e h = refl
  paused-keeps true (some (cancelled_by x)) w e h = refl
  paused-keeps true (some check_failed) w e h = refl
  paused-keeps true (some (checked true)) w e h = absurd (h refl)
  paused-keeps true (some (checked false)) w e h = refl

  stop-stopped :
      (w : Worker S)
      → w.started ≡ true
      → stop repository settings w ≡ record w {
        store = (repository.unregister_worker w.store).1;
        active = [];
        started = false;
      }
  unfolding stop stop_started
  stop-stopped w e = rw e refl

  -- A worker that has started never has more collections in `_active` than its limit, each of them
  -- once, whatever it claims and however its tasks go. In a turn in which a required language model
  -- is not ready it claims nothing. When its loop is left, by a stop or by an exception, none is in
  -- `_active` and the worker has been unregistered.
  pub run-RunsWithin :
      (rs : List (Round E)) (w : Worker S)
      → RunsWithin settings.worker_concurrency w
      → RunsWithin settings.worker_concurrency (claim_rounds repository settings rs w).1
        × ((r : Round E) → IsPaused r → (claim_round repository settings r w).1.store ≡ w.store)
        × ((run repository settings rs w).1 ≡ record (claim_rounds repository settings rs w).1 {
          store = (repository.unregister_worker (claim_rounds repository settings rs w).1.store).1;
          active = [];
          started = false;
        })
  unfolding run claim_round reap_finished
  run-RunsWithin rs w h =
      let after = claim_rounds-RunsWithin rs w h in
      (
        after,
        λ r p. paused-keeps settings.llm_required r.health _ p.0 p.1,
        stop-stopped (claim_rounds repository settings rs w).1 after.started,
      )
