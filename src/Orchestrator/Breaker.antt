-- ===== src/Orchestrator/Breaker.antt =====
-- orchestrator/atomic.py: a source that is blocked at one host again and again is asked no more for
-- what is queued at that host.
pub mod Opening
use argus_web_intelligence.Prelude.{
  ℕ, suc, ◌+◌, ltb, leb, length, keep, String, Bool, true, false, ◌&&◌, ◌||◌, not, List, [], ◌∷◌,
  Option, none, some, when_none, String_eq, ◌==◌, if◌then◌else◌,
}
use argus_web_intelligence.Prelude.Text.{strip}
use argus_web_intelligence.Prelude.Format.{concat}
use argus_web_intelligence.Contracts.{CollectionRecord, SourceCoverage}
use argus_web_intelligence.Contracts.Values.{
  Json, null, bool, natural, text, object, end, get_member, set_member,
}
use argus_web_intelligence.Orchestrator.{SourceTask}

-- AtomicCollectionOrchestrator.source_block_threshold
abbrev pub source_block_threshold : ℕ
source_block_threshold = 3

abbrev version : String
version = "source-block-circuit-breaker/1"

abbrev pub breakers : String
breakers = "source_block_circuit_breakers"

as_count : Option Json → ℕ
as_count (some (natural n)) = n
as_count _ = 0

-- `int(entry.get(name, 0) or 0)`, for the numbers that the breaker itself writes
unfoldable pub number_in : String → Json → ℕ
unfolding as_count
number_in name entry = as_count (get_member name entry)

or_empty : Option Json → Json
or_empty none = object end
or_empty (some e) = e

-- The entry of a circuit, or an empty one.
unfoldable pub entry_of : String → Json → Json
unfolding or_empty
entry_of key state = or_empty (get_member key state)

unfoldable pub state_of : Json → Json
unfolding entry_of
state_of checkpoint = entry_of breakers checkpoint

unfoldable pub circuit_key : String → String → String → String
unfolding concat
circuit_key source_id host error_code = concat (source_id ∷ "|" ∷ host ∷ "|" ∷ error_code ∷ [])

-- `str(coverage.error_code or "SOURCE_BLOCKED").strip()`
unfoldable pub circuit_code : SourceCoverage → String
unfolding strip
circuit_code c = elim c.error_code [
  | none ↦ "SOURCE_BLOCKED"
  | some code ↦ if code == "" then "SOURCE_BLOCKED" else strip code
]

entry : String → String → String → ℕ → Bool → ℕ → Json
unfolding set_member
entry source_id host error_code count opened removed =
    set_member "pending_tasks_removed" (natural removed) (
      set_member "open" (bool opened) (
        set_member "threshold" (natural source_block_threshold) (
          set_member "count" (natural count) (
            set_member "error_code" (text error_code) (
              set_member "host" (text host) (
                set_member "source_id" (text source_id)
                  (set_member "version" (text version) (object end))))))))

-- The checkpoint with an entry of a circuit.
written : String → Json → Json → Json
unfolding state_of set_member
written key e checkpoint =
    set_member breakers (set_member key e (state_of checkpoint))
      (set_member "source_block_circuit_breaker_version" (text version) checkpoint)

-- What the call leaves: the checkpoint, the queue, and its answer.
pub record Circuit : Type 0 where
  pub checkpoint : Json
  pub pending : List SourceTask
  pub opened : Bool

-- The host of a task's URL is `(urlsplit(url).hostname or "").casefold().strip(".")`, for a URL that
-- urlsplit accepts.
module _ (host_of : String → String) where
  -- What is queued for the same source at the same host.
  unfoldable pub is_same_circuit : SourceTask → SourceTask → Bool
  is_same_circuit task candidate =
      candidate.source_id == task.source_id && host_of candidate.url == host_of task.url

  unfoldable pub retained : SourceTask → List SourceTask → List SourceTask
  unfolding is_same_circuit
  retained task pending = keep (λ c. not (is_same_circuit task c)) pending

  removed : SourceTask → List SourceTask → ℕ
  unfolding is_same_circuit
  removed task pending = length (keep (is_same_circuit task) pending)

  count_block : SourceTask → String → Json → List SourceTask → Circuit
  unfolding retained removed entry written number_in entry_of state_of circuit_key
  count_block task code checkpoint pending =
      let host = host_of task.url in
      let key = circuit_key task.source_id host code in
      let before = entry_of key (state_of checkpoint) in
      let count = number_in "count" before + 1 in
      let opened = leb source_block_threshold count in
      let gone =
        number_in "pending_tasks_removed" before + (if opened then removed task pending else 0) in
      record {
        checkpoint = written key (entry task.source_id host code count opened gone) checkpoint;
        pending = if opened then retained task pending else pending;
        opened = opened;
      }

  -- AtomicCollectionOrchestrator._apply_source_block_circuit_breaker
  unfoldable pub apply_breaker : SourceTask → SourceCoverage → Json → List SourceTask → Circuit
  unfolding count_block circuit_code
  apply_breaker task coverage checkpoint pending =
      if host_of task.url == "" || circuit_code coverage == ""
      then record { checkpoint = checkpoint; pending = pending; opened = false }
      else count_block task (circuit_code coverage) checkpoint pending
