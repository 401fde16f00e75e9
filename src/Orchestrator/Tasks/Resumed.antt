-- ===== src/Orchestrator/Tasks/Resumed.antt =====
-- What is read back from the tasks in a checkpoint.
use argus_web_intelligence.Prelude.{
  String, List, [], ◌∷◌, map, Option, none, some, ◌≡◌, refl, String_eq,
}
use argus_web_intelligence.Contracts.{CollectionRecord}
use argus_web_intelligence.Contracts.Values.{null, text, get_member, get_in, members}
use argus_web_intelligence.Contracts.Values.Laws.{elements-items}
use argus_web_intelligence.Orchestrator.{SourceTask}
use argus_web_intelligence.Orchestrator.Tasks.{
  task_dict, task_dicts, load_task, load_tasks, load_each, load_list, build, is_parameter, names,
  as_text, as_depth, as_key, as_metadata, loaded,
}

as_key-back :
    (o : Option String) → as_key (some (elim o [ none ↦ null | some k ↦ text k ])) ≡ some o
unfolding as_key
as_key-back none = refl
as_key-back (some k) = refl

load_task-task_dict : (t : SourceTask) → load_task (task_dict t) ≡ some t
unfolding load_task task_dict build is_parameter names as_text as_depth as_metadata get_member
    get_in members
load_task-task_dict t = rw (as_key-back t.task_key) refl

load_each-map : (ts : List SourceTask) → load_each (map task_dict ts) ≡ some ts
unfolding load_each loaded
load_each-map [] = refl
load_each-map (t ∷ ts) = rw (load_task-task_dict t, load_each-map ts) refl

-- The tasks that a checkpoint holds are loaded as they were stored, whatever else is in it.
pub load_tasks-task_dicts :
    (r : CollectionRecord) (ts : List SourceTask)
    → get_member "pending_tasks" r.checkpoint ≡ some (task_dicts ts)
    → load_tasks r ≡ some ts
unfolding load_tasks load_list task_dicts
load_tasks-task_dicts r ts e = rw (e, elements-items (map task_dict ts)) (load_each-map ts)
