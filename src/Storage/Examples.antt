-- ===== src/Storage/Examples.antt =====
-- Small databases, on which the theorems of the storage modules are tried.
pub mod Claims
pub mod Admissions
pub mod Writes
use argus_web_intelligence.Prelude.{
  ℕ, ◌*◌, String, Bool, true, false, List, [], ◌∷◌, Option, none, some,
}
use argus_web_intelligence.Contracts.{
  CollectionStatus, queued, running, CollectionRecord, CollectionRequest, Observation, second,
}
use argus_web_intelligence.Contracts.Values
use argus_web_intelligence.Storage.{Database, empty_database, CollectionRow, LeaseRow}
use argus_web_intelligence.Storage.Queue.{Round}
use argus_web_intelligence.Storage.Fencing.{LeaseFence}

abbrev pub request : CollectionRequest
request = record {
  protocol_version = "1.0.0";
  consumer = "test";
  consumer_profile_version = none;
  capability = none;
  requested_facts = [];
  research_profile = none;
  research_profile_version = none;
  tool_pack_id = none;
  tool_pack_version = none;
  analysis_id = "a-1";
  idempotency_key = none;
  territory = record {
    city = some "Kazan";
    address = none;
    point = none;
    radius_meters = none;
    geometry = none;
    metadata = Values.Json.null;
  };
  intents = "reviews" ∷ [];
  constraints = record {
    max_pages = 30;
    max_depth = 2;
    max_duration_seconds = 240 * second;
    allowed_domains = [];
    denied_domains = [];
    seed_urls = [];
    source_pool_urls = [];
    language = none;
    output_language = "ru";
  };
  allow_partial = true;
}

abbrev pub collection : String → CollectionStatus → ℕ → CollectionRecord
collection id status at = record {
  collection_id = id;
  request = request;
  status = status;
  created_at = at;
  updated_at = at;
  progress_percent = 0;
  stage = none;
  partial = false;
  coverage = [];
  errors = [];
  checkpoint = Values.Json.null;
}

abbrev pub stored : CollectionRecord → CollectionRow
stored r = record {
  collection_id = r.collection_id;
  status = r.status;
  body = r;
  created_at = r.created_at;
  updated_at = r.updated_at;
}

-- Two collections wait; the older one was queued second.
abbrev pub two_waiting : Database
two_waiting = record empty_database {
  collections = stored (collection "c-2" queued 20) ∷ stored (collection "c-1" running 10) ∷ [];
}

abbrev pub calm : ℕ → Round
calm now = record { locked = λ _. false; now = now; between = λ db. db }

abbrev pub lease : String → String → ℕ → LeaseRow
lease id worker until = record {
  collection_id = id;
  worker_id = worker;
  leased_at = 0;
  heartbeat_at = 0;
  lease_until = until;
}

-- The worker w-1 has c-1 until 5 s.
abbrev pub leased : Database
leased = record two_waiting { leases = lease "c-1" "w-1" (5 * second) ∷ [] }

abbrev pub fence : LeaseFence
fence = record { collection_id = "c-1"; worker_id = "w-1" }

abbrev pub observation : String → Observation
observation id = record {
  observation_id = id;
  collection_id = "c-1";
  analysis_id = "a-1";
  consumer = "test";
  source = "generic_web";
  source_kind = "web_page";
  url = "https://example.org/";
  entity_type = "review";
  entity_id = none;
  title = none;
  text = some "text";
  details = Values.Json.null;
  geo = none;
  published_at = none;
  collected_at = 0;
  content_hash = "h";
  provenance = Values.Json.null;
  quality = Values.Json.null;
}
