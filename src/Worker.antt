-- ===== src/Worker.antt =====
-- worker.py: the loop that claims collections and starts their tasks. How the tasks go, and what the
-- check of the language model says, is the environment.
pub mod Bounded
mod Examples
use argus_web_intelligence.Prelude.{
  ℕ, zero, suc, ◌-◌, length, keep, String, Bool, true, false, not, List, [], ◌∷◌, Option, none,
  some, if◌then◌else◌,
}
use argus_web_intelligence.Prelude.Action.{
  Action, Result, ok, err, ◌>>=◌, ◌>>◌, pure, raise, continue,
}
use argus_web_intelligence.Prelude.Sets.{add}

-- The calls of the repository, with the identity of the worker and the length of a lease filled in.
pub record Queue (S E : Type 0) : Type 0 where
  pub claim_next_collection : Action S E (Option String)
  pub unregister_worker : Action S E (Unit {0})

pub record Settings : Type 0 where
  pub worker_concurrency : ℕ
  pub llm_required : Bool

-- The variables of a CollectionWorker, and what its repository holds; `active` is the set of keys of
-- `_active`.
pub record Worker (S : Type 0) : Type 0 where
  pub store : S
  pub active : List String
  pub llm_claims_ready : Option Bool
  pub started : Bool

-- What `checker.check()` does.
pub data Health (E : Type 0) : Type 0 where
  cancelled_by : E → Health E
  check_failed : Health E
  checked : (ready : Bool) → Health E

-- What a turn of the loop finds: which tasks are done, and the check, if there is a checker.
pub record Round (E : Type 0) : Type 0 where
  pub done : String → Bool
  pub health : Option (Health E)

module _ {S E : Type 0} (repository : Queue S E) (settings : Settings) where
  stored : {A : Type 0} → Action S E A → Action (Worker S) E A
  stored m w = let (r, s) = m w.store in (r, record w { store = s })

  -- CollectionWorker._reap_finished
  unfoldable pub reap_finished : (String → Bool) → Worker S → Worker S
  reap_finished done w = record w { active = keep (λ id. not (done id)) w.active }

  -- CollectionWorker._set_llm_claim_state
  set_llm_claim_state : Bool → Action (Worker S) E Bool
  set_llm_claim_state ready w = (ok ready, record w { llm_claims_ready = some ready })

  -- CollectionWorker._llm_allows_new_claims
  unfoldable pub llm_allows_new_claims : Bool → Option (Health E) → Action (Worker S) E Bool
  unfolding set_llm_claim_state
  llm_allows_new_claims false health = pure true
  llm_allows_new_claims true none = set_llm_claim_state false
  llm_allows_new_claims true (some (cancelled_by e)) = raise e
  llm_allows_new_claims true (some check_failed) = set_llm_claim_state false
  llm_allows_new_claims true (some (checked ready)) = set_llm_claim_state ready

  -- `self._active[collection_id] = task`
  start_task : String → Action (Worker S) E (Unit {0})
  start_task id w = (ok tt, record w { active = add id w.active })

  -- `for _ in range(max(0, available))`, with the number of claims so far
  unfoldable pub claim_each : ℕ → ℕ → Action (Worker S) E ℕ
  unfolding stored start_task
  claim_each zero claimed = pure claimed
  claim_each (suc available) claimed = stored repository.claim_next_collection >>= λ found.
      elim found [
        | none ↦ pure claimed
        | some id ↦ (start_task id >> claim_each available (suc claimed))
      ]

  claim_available : Bool → Action (Worker S) E ℕ
  unfolding claim_each
  claim_available false w = pure 0 w
  claim_available true w = claim_each (settings.worker_concurrency - length w.active) 0 w

  -- The body of the loop in CollectionWorker.run: how many collections it has claimed. With none,
  -- the worker waits before the next turn.
  unfoldable pub claim_round : Round E → Action (Worker S) E ℕ
  unfolding reap_finished llm_allows_new_claims claim_available
  claim_round r w =
      (llm_allows_new_claims settings.llm_required r.health >>= claim_available)
        (reap_finished r.done w)

  -- `while not self._stop.is_set()`, over the turns until then
  unfoldable pub claim_rounds : List (Round E) → Action (Worker S) E (Unit {0})
  unfolding claim_round
  claim_rounds [] = pure tt
  claim_rounds (r ∷ rs) = claim_round r >>= λ _. claim_rounds rs

  stop_started : Bool → Worker S → Worker S
  stop_started false w = w
  stop_started true w = record w {
    store = (repository.unregister_worker w.store).1;
    active = [];
    started = false;
  }

  -- CollectionWorker.stop; the exceptions of `unregister_worker` are suppressed
  unfoldable pub stop : Worker S → Worker S
  unfolding stop_started
  stop w = stop_started w.started w

  -- CollectionWorker.run, of a worker that has been started
  unfoldable pub run : List (Round E) → Action (Worker S) E (Unit {0})
  unfolding claim_rounds stop
  run rs w = let (r, w') = claim_rounds rs w in (r, stop w')
