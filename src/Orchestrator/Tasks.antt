-- ===== src/Orchestrator/Tasks.antt =====
-- orchestrator/service.py: tasks as JSON, and the merge of the tasks that several plans find.
pub mod Resumed
pub mod Merged
use argus_web_intelligence.Prelude.{
  ℕ, min, String, Bool, true, false, ◌&&◌, not, List, [], ◌∷◌, ◌++◌, map, Option, none, some, all,
  String_eq, ◌==◌, Nat_eq, if◌then◌else◌,
}
use argus_web_intelligence.Prelude.Text.{strip}
use argus_web_intelligence.Prelude.Format.{decimal}
use argus_web_intelligence.Prelude.Sets.{elem}
use argus_web_intelligence.Contracts.{CollectionRecord}
use argus_web_intelligence.Contracts.Values.{
  Json, null, bool, natural, number, text, array, object, Items, nil, cons, Members, end, member,
  get_member, set_member, items, elements, texts, members,
}
use argus_web_intelligence.Orchestrator.{SourceTask, dedupe_key, keys}

-- CollectionOrchestrator._task_dict
unfoldable pub task_dict : SourceTask → Json
task_dict t = object (
    member "source_id" (text t.source_id) (
      member "goal" (text t.goal) (
        member "url" (text t.url) (
          member "depth" (natural t.depth) (
            member "metadata" t.metadata
              (member "task_key" (elim t.task_key [ none ↦ null | some k ↦ text k ]) end))))))

is_parameter : String → Bool
is_parameter name =
    elem name ("source_id" ∷ "goal" ∷ "url" ∷ "depth" ∷ "metadata" ∷ "task_key" ∷ [])

names : Members → List String
names end = []
names (member k v rest) = k ∷ names rest

as_text : Option Json → Option String
as_text (some (text s)) = some s
as_text _ = none

as_depth : Option Json → Option ℕ
as_depth none = some 0
as_depth (some (natural n)) = some n
as_depth _ = none

as_key : Option Json → Option (Option String)
as_key none = some none
as_key (some null) = some none
as_key (some (text k)) = some (some k)
as_key _ = none

as_metadata : Option Json → Json
as_metadata none = object end
as_metadata (some v) = v

build :
    Json
    → Option String
    → Option String
    → Option String
    → Option ℕ
    → Option (Option String)
    → Option SourceTask
unfolding as_metadata
build v (some source_id) (some goal) (some url) (some depth) (some key) = some (record {
  source_id = source_id;
  goal = goal;
  url = url;
  depth = depth;
  metadata = as_metadata (get_member "metadata" v);
  task_key = key;
})
build v _ _ _ _ _ = none

-- `SourceTask(**item)`: `none` for a member that is missing, has another name, or is not of its
-- type.
unfoldable pub load_task : Json → Option SourceTask
unfolding is_parameter names as_text as_depth as_key build members
load_task v =
    if all is_parameter (names (members v))
    then build v (as_text (get_member "source_id" v)) (as_text (get_member "goal" v))
        (as_text (get_member "url" v)) (as_depth (get_member "depth" v))
        (as_key (get_member "task_key" v))
    else none

loaded : Option SourceTask → Option (List SourceTask) → Option (List SourceTask)
loaded (some t) (some ts) = some (t ∷ ts)
loaded _ _ = none

load_each : List Json → Option (List SourceTask)
unfolding loaded
load_each [] = some []
load_each (v ∷ vs) = loaded (load_task v) (load_each vs)

load_list : Option Json → Option (List SourceTask)
unfolding load_each elements
load_list none = some []
load_list (some (array vs)) = load_each (elements vs)
load_list _ = none

-- CollectionOrchestrator._load_tasks
unfoldable pub load_tasks : CollectionRecord → Option (List SourceTask)
unfolding load_list
load_tasks r = load_list (get_member "pending_tasks" r.checkpoint)

-- `[self._task_dict(task) for task in tasks]`
unfoldable pub task_dicts : List SourceTask → Json
unfolding items
task_dicts tasks = array (items (map task_dict tasks))

-- `str(value)`. The lists of goals and engines hold texts; a list or a dictionary in them counts as
-- blank here.
str_of : Json → String
str_of null = "None"
str_of (bool true) = "True"
str_of (bool false) = "False"
str_of (natural n) = decimal n
str_of (number s) = s
str_of (text s) = s
str_of _ = ""

-- The loop over the values of one list: each text once, stripped, and none that is blank.
unfoldable pub collect : List Json → List String → List String
unfolding str_of strip
collect [] found = found
collect (v ∷ vs) found =
    let s = strip (str_of v) in
    if s == ""
    then collect vs found
    else if elem s found
    then collect vs found
    else collect vs (found ++ s ∷ [])

listed_values : Option Json → List Json
listed_values (some (array vs)) = elements vs
listed_values _ = []

-- The goals, or the engines, of two tasks for one page.
unfoldable pub merged_texts : String → Json → Json → List String
unfolding collect listed_values elements get_member
merged_texts key current incoming =
    collect (listed_values (get_member key incoming))
      (collect (listed_values (get_member key current)) [])

set_texts : String → List String → Json → Json
set_texts key [] metadata = metadata
set_texts key (s ∷ ss) metadata = set_member key (texts (s ∷ ss)) metadata

-- `if value`
truthy : Option Json → Bool
truthy none = false
truthy (some null) = false
truthy (some (bool b)) = b
truthy (some (natural n)) = not (n == 0)
truthy (some (number s)) = true
truthy (some (text s)) = not (s == "")
truthy (some (array nil)) = false
truthy (some (array (cons v vs))) = true
truthy (some (object end)) = false
truthy (some (object (member k v ms))) = true

set_provider : Option Json → Option Json → Json → Json
unfolding truthy
set_provider current none metadata = metadata
set_provider current (some p) metadata =
    if not (truthy current) && truthy (some p)
    then set_member "discovery_provider" p metadata
    else metadata

-- A rank is a position in a list of results, so no negative number.
set_rank : Option Json → Option Json → Json → Json
set_rank (some (natural a)) (some (natural b)) metadata =
    set_member "discovery_rank" (natural (min a b)) metadata
set_rank (some (natural a)) _ metadata = set_member "discovery_rank" (natural a) metadata
set_rank _ (some (natural b)) metadata = set_member "discovery_rank" (natural b) metadata
set_rank _ _ metadata = metadata

-- CollectionOrchestrator._merge_task_context: what `current` becomes
unfoldable pub merge_task_context : SourceTask → SourceTask → SourceTask
unfolding set_texts set_provider set_rank
merge_task_context current incoming =
    let old = current.metadata in
    let new = incoming.metadata in
    let with_goals = set_texts "research_goals" (merged_texts "research_goals" old new) old in
    let with_engines =
      set_texts "discovery_engines" (merged_texts "discovery_engines" old new) with_goals in
    let with_provider =
      set_provider (get_member "discovery_provider" old) (get_member "discovery_provider" new)
        with_engines in
    record current {
      metadata =
          set_rank (get_member "discovery_rank" old) (get_member "discovery_rank" new)
            with_provider;
    }

-- `task.metadata["collection_id"] = collection_id`
unfoldable pub owned_by : String → SourceTask → SourceTask
unfolding set_member
owned_by collection_id t = record t {
  metadata = set_member "collection_id" (text collection_id) t.metadata;
}

-- The last task with a key is the one that `by_key` holds.
unfoldable pub merge_last : SourceTask → List SourceTask → List SourceTask
merge_last incoming [] = []
merge_last incoming (t ∷ ts) =
    let rest = merge_last incoming ts in
    if elem (dedupe_key incoming) (keys ts)
    then t ∷ rest
    else if dedupe_key t == dedupe_key incoming
    then merge_task_context t incoming ∷ ts
    else t ∷ ts

-- One task of `additions`
unfoldable pub merge_task : SourceTask → List SourceTask → List SourceTask
unfolding merge_last
merge_task task existing =
    if elem (dedupe_key task) (keys existing)
    then merge_last task existing
    else existing ++ task ∷ []

-- CollectionOrchestrator._merge_tasks
unfoldable pub merge_tasks : String → List SourceTask → List SourceTask → List SourceTask
unfolding merge_task owned_by
merge_tasks collection_id existing [] = existing
merge_tasks collection_id existing (task ∷ additions) =
    merge_tasks collection_id (merge_task (owned_by collection_id task) existing) additions
