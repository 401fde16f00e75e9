-- ===== src/Orchestrator/Tasks/Merged.antt =====
-- The keys of the queue after a merge.
use argus_web_intelligence.Prelude.{
  String, List, [], ◌∷◌, ◌++◌, ◌≡◌, refl, ap, String_eq, if◌then◌else◌, arith, Bool-cases, inl, inr,
}
use argus_web_intelligence.Prelude.Sets.{elem}
use argus_web_intelligence.Orchestrator.{SourceTask, dedupe_key, keys}
use argus_web_intelligence.Orchestrator.Tasks.{
  merge_tasks, merge_task, merge_last, merge_task_context, owned_by,
}

-- A list of keys to which others are added, each one that is not there yet at the end.
abbrev pub extend : List String → List String → List String
extend ks [] = ks
extend ks (k ∷ more) = extend (if elem k ks then ks else ks ++ k ∷ []) more

keys-owned_by : (id : String) (t : SourceTask) → dedupe_key (owned_by id t) ≡ dedupe_key t
unfolding dedupe_key owned_by
keys-owned_by id t = refl

keys-merge_last : (t : SourceTask) (ts : List SourceTask) → keys (merge_last t ts) ≡ keys ts
unfolding merge_last merge_task_context dedupe_key
keys-merge_last t [] = refl
keys-merge_last t (u ∷ ts) = ground (arith, keys-merge_last t ts)

map-append :
    (ts : List SourceTask) (t : SourceTask) → keys (ts ++ t ∷ []) ≡ keys ts ++ dedupe_key t ∷ []
map-append [] t = refl
map-append (u ∷ ts) t = ap (λ r. dedupe_key u ∷ r) (map-append ts t)

keys-merge_task :
    (t : SourceTask) (ts : List SourceTask)
    → keys (merge_task t ts)
      ≡ (if elem (dedupe_key t) (keys ts) then keys ts else keys ts ++ dedupe_key t ∷ [])
unfolding merge_task
keys-merge_task t ts = elim (Bool-cases (elem (dedupe_key t) (keys ts))) [
  | inl h ↦ rw h (keys-merge_last t ts)
  | inr h ↦ rw h (map-append ts t)
]

-- A merge keeps the queued keys in their places and adds each new key once, at the end.
pub keys-merge_tasks :
    (id : String) (existing additions : List SourceTask)
    → keys (merge_tasks id existing additions) ≡ extend (keys existing) (keys additions)
unfolding merge_tasks
keys-merge_tasks id existing [] = refl
keys-merge_tasks id existing (t ∷ additions) =
    let e = keys-merge_task (owned_by id t) existing in
    let h = keys-merge_tasks id (merge_task (owned_by id t) existing) additions in
    rw (h, e, keys-owned_by id t) refl
