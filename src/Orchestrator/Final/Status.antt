-- ===== src/Orchestrator/Final/Status.antt =====
-- What the status of a collection says, when its loop has been left.
use argus_web_intelligence.Prelude.{
  ℕ, leb, any, Bool, true, false, ◌&&◌, ◌||◌, not, List, String_eq, ◌==◌, ◌≡◌, ◌↔◌, if◌then◌else◌,
  arith,
}
use argus_web_intelligence.Contracts.{
  CollectionStatus, completed, partial, blocked, failed, SourceCoverage, Observation,
}
use argus_web_intelligence.Orchestrator.{Progress}
use argus_web_intelligence.Orchestrator.Turn.{Settings}
use argus_web_intelligence.Orchestrator.Final.{
  settled, final_status, is_full, terminal_source_errors, is_partial, pages_out,
}

-- What can be wrong with a run, read off its variables.
abbrev pub has_blocked : Progress → Bool
has_blocked p = any (λ (i : SourceCoverage). i.blocked) p.collection.coverage

abbrev pub has_partial : Progress → Bool
has_partial p = any (λ (i : SourceCoverage). i.status == "partial") p.collection.coverage

-- Tasks are left with the page budget used up, or the time is.
abbrev pub has_run_out : Bool → Progress → Bool
has_run_out time_exhausted p =
    time_exhausted
    || (is_full p.pending && leb p.collection.request.constraints.max_pages p.processed)

abbrev pub has_errors : Bool → Progress → Bool
has_errors time_exhausted p =
    is_full (terminal_source_errors p.collection) || has_run_out time_exhausted p

-- The four ends, for whatever the flags are.
table :
    (allow found b s e x : Bool)
    → ((final_status allow found b s (e || x) x ≡ completed) ↔ ((b || s || (e || x)) ≡ false))
      × ((final_status allow found b s (e || x) x ≡ partial)
          ↔ ((allow && found && (b || s || (e || x))) ≡ true))
      × ((final_status allow found b s (e || x) x ≡ blocked)
          ↔ ((not found && b && not (e || x)) ≡ true))
      × ((final_status allow found b s (e || x) x ≡ failed) ↔ (
          (if found then not allow && (b || s || (e || x)) else (e || x) || (s && not b)) ≡ true))
unfolding final_status
table true true b s e x = ground arith
table true false b s e x = ground arith
table false true b s e x = ground arith
table false false b s e x = ground arith

flag : (s : CollectionStatus) → (is_partial s ≡ true) ↔ (s ≡ partial)
unfolding is_partial
flag s = ground arith

-- The end of a collection is complete just when nothing was blocked, partial, in error or cut off;
-- partial when something was, there are observations and the request allows it; blocked when there
-- are none, a source was blocked, and there was no other error and no budget run out; and failed
-- otherwise: with observations that are not allowed to be partial, or with none and an error, a
-- budget run out, or a partial source and no blocked one. The flag `partial` goes with the status.
pub settled_status :
    (settings : Settings) (started_at updated_at : ℕ) (time_exhausted : Bool)
    (observations : List Observation) (p : Progress)
    → (((settled settings started_at updated_at time_exhausted observations p).status ≡ completed)
        ↔ ((has_blocked p || has_partial p || has_errors time_exhausted p) ≡ false))
      × (((settled settings started_at updated_at time_exhausted observations p).status ≡ partial)
          ↔ ((p.collection.request.allow_partial
                && is_full observations
                && (has_blocked p || has_partial p || has_errors time_exhausted p))
              ≡ true))
      × (((settled settings started_at updated_at time_exhausted observations p).status ≡ blocked)
          ↔ ((not (is_full observations) && has_blocked p && not (has_errors time_exhausted p))
              ≡ true))
      × (((settled settings started_at updated_at time_exhausted observations p).status ≡ failed)
          ↔ ((if is_full observations
                then not p.collection.request.allow_partial
                  && (has_blocked p || has_partial p || has_errors time_exhausted p)
                else has_errors time_exhausted p || (has_partial p && not (has_blocked p)))
              ≡ true))
      × (((settled settings started_at updated_at time_exhausted observations p).partial ≡ true) ↔ (
          (settled settings started_at updated_at time_exhausted observations p).status ≡ partial))
unfolding settled pages_out
settled_status settings started_at updated_at time_exhausted observations p =
    let (c, pt, b, f) =
      table p.collection.request.allow_partial (is_full observations) (has_blocked p)
        (has_partial p) (is_full (terminal_source_errors p.collection))
        (has_run_out time_exhausted p) in
    (c, pt, b, f, flag _)
