-- ===== src/Orchestrator/Lifecycle.antt =====
-- orchestrator/service.py: what the API does with a collection: it is submitted, cancelled, taken up
-- again after a restart, and its result is read.
pub mod Cancelled
use argus_web_intelligence.Prelude.{
  ℕ, String, Bool, true, false, List, [], ◌∷◌, Option, none, some, if◌then◌else◌,
}
use argus_web_intelligence.Prelude.Action.{Action, Result, ok, err, ◌>>=◌, ◌>>◌, pure, continue}
use argus_web_intelligence.Contracts.{
  CollectionRecord, CollectionRequest, CollectionStatus, queued, running, cancelled, is_finished,
  SourceCoverage, StructuredError, Observation, Evidence,
}
use argus_web_intelligence.Contracts.Values.{object, end}
use argus_web_intelligence.Orchestrator.{Repository}

-- The record of a new collection; its identifier is the UUID that the environment draws.
unfoldable pub new_collection : String → ℕ → CollectionRequest → CollectionRecord
new_collection collection_id now request = record {
  collection_id = collection_id;
  request = request;
  status = queued;
  created_at = now;
  updated_at = now;
  progress_percent = 0;
  stage = some "queued";
  partial = false;
  coverage = [];
  errors = [];
  checkpoint = object end;
}

unfoldable pub cancelled_at : ℕ → CollectionRecord → CollectionRecord
cancelled_at now r = record r { status = cancelled; stage = some "cancelled"; updated_at = now }

-- A collection that was running when the process ended
unfoldable pub recovered_at : ℕ → CollectionRecord → CollectionRecord
recovered_at now r = record r { status = queued; stage = some "recovered"; updated_at = now }

is_running : CollectionStatus → Bool
is_running running = true
is_running _ = false

-- contracts/models.py
pub record CollectionResult : Type 0 where
  pub collection_id : String
  pub analysis_id : String
  pub consumer : String
  pub status : CollectionStatus
  pub partial : Bool
  pub observations : List Observation
  pub evidence : List Evidence
  pub coverage : List SourceCoverage
  pub errors : List StructuredError

unfoldable pub result_of : CollectionRecord → List Observation → List Evidence → CollectionResult
result_of r observations evidence = record {
  collection_id = r.collection_id;
  analysis_id = r.request.analysis_id;
  consumer = r.request.consumer;
  status = r.status;
  partial = r.partial;
  observations = observations;
  evidence = evidence;
  coverage = r.coverage;
  errors = r.errors;
}

module _ {S E : Type 0} (repository : Repository S E) where
  -- CollectionOrchestrator.submit, over `repository.create_collection`; the identifier is returned
  unfoldable pub submit :
      (CollectionRecord → Action S E (Unit {0}))
      → String
      → ℕ
      → CollectionRequest
      → Action S E String
  unfolding new_collection
  submit create_collection collection_id now request =
      create_collection (new_collection collection_id now request) >> pure collection_id

  cancel_stored : ℕ → CollectionRecord → Bool → Action S E (Option CollectionRecord)
  unfolding cancelled_at
  cancel_stored now r true = pure (some r)
  cancel_stored now r false =
      repository.update_collection (cancelled_at now r) >> pure (some (cancelled_at now r))

  cancel_found : ℕ → Option CollectionRecord → Action S E (Option CollectionRecord)
  unfolding cancel_stored
  cancel_found now none = pure none
  cancel_found now (some r) = cancel_stored now r (is_finished r.status)

  -- CollectionOrchestrator.cancel; that a job in this process is cancelled too is for its turns to
  -- say
  unfoldable pub cancel : ℕ → String → Action S E (Option CollectionRecord)
  unfolding cancel_found
  cancel now collection_id = repository.get_collection collection_id >>= cancel_found now

  -- The loop of CollectionOrchestrator.start over the recoverable collections: the identifiers of
  -- those that are run again
  unfoldable pub recover : ℕ → List CollectionRecord → Action S E (List String)
  unfolding recovered_at is_running
  recover now [] = pure []
  recover now (r ∷ rs) =
      (if is_running r.status then repository.update_collection (recovered_at now r) else pure tt)
      >> (recover now rs >>= λ ids. pure (r.collection_id ∷ ids))

  result_found :
      (String → Action S E (List Evidence))
      → Option CollectionRecord
      → Action S E (Option CollectionResult)
  unfolding result_of
  result_found list_evidence none = pure none
  result_found list_evidence (some r) =
      repository.list_observations r.collection_id >>= λ observations.
      list_evidence r.collection_id >>= λ evidence. pure (some (result_of r observations evidence))

  -- CollectionOrchestrator.result, over `repository.list_evidence`
  unfoldable pub result :
      (String → Action S E (List Evidence)) → String → Action S E (Option CollectionResult)
  unfolding result_found
  result list_evidence collection_id =
      repository.get_collection collection_id >>= result_found list_evidence
