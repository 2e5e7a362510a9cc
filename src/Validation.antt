-- ===== src/Validation.antt =====
-- scripts/validate_dags.py: the requirements on the DAGs, the search for the tasks behind `start`,
-- and the exit code. What Airflow has loaded is a record; `dag.topological_sort()` is a field of it.
pub mod Search
pub mod Reachable
pub mod Soundness
use snowflake_trade_pipeline.Prelude.{
  is_empty, ℕ, zero, suc, String, Bool, true, false, not, ◌&&◌, ◌||◌, Option, none, some, List, [],
  ◌∷◌, ◌++◌, map, length, ltb, if◌then◌else◌, ◌==◌, nat_eq, string_eq, contains, keep,
}
use snowflake_trade_pipeline.Prelude.Sorting.{is_before}
use snowflake_trade_pipeline.Deploy.Phases.{starts_with, occurs}
use snowflake_trade_pipeline.Settings.Casing.{lower}

-- A task, with the name of its class and the tasks right behind it.
pub record TaskNode : Type 0 where
  pub task_id : String
  pub class_name : String
  pub retries : ℕ
  pub has_callback : Bool
  pub downstream : List String

pub record LoadedDag : Type 0 where
  pub dag_id : String
  pub description : Option String
  pub default_owner : Option String
  pub owner : String
  pub catchup : Bool
  pub max_active_runs : ℕ
  pub has_default_callback : Bool
  pub tasks : List TaskNode
  pub is_sortable : Bool

pub record DagBag : Type 0 where
  pub import_errors : List String
  pub dags : List LoadedDag

-- A requirement that is violated, by the identifier of the DAG or of a task of it.
pub data Problem : Type 0 where
  no_description bad_owner catches_up no_failure_callback not_sortable : String → Problem
  concurrent_runs : String → ℕ → Problem
  duplicate_task no_retries : String → String → Problem
  unordered_tasks : String → List String → Problem

unfoldable pub unless : Bool → Problem → List Problem
unless true p = []
unless false p = p ∷ []

-- Of an optional text: `not s`.
unfoldable pub is_missing : Option String → Bool
is_missing none = true
is_missing (some s) = s == ""

-- `(dag.default_args or {}).get("owner") or dag.owner`
unfoldable pub owner_of : LoadedDag → String
owner_of dag = elim dag.default_owner [
  | none ↦ dag.owner
  | some o ↦ if o == "" then dag.owner else o
]

unfoldable pub is_sensor : TaskNode → Bool
unfolding occurs lower starts_with
is_sensor t = occurs "sensor" (lower t.class_name) || starts_with "wait_for" t.task_id

unfoldable pub is_retried : TaskNode → Bool
unfolding is_sensor
is_retried t = not (t.retries == 0) || is_sensor t || t.class_name == "EmptyOperator"

-- The tasks in their order, with the identifiers seen so far.
unfoldable pub task_problems : String → List String → List TaskNode → List Problem
unfolding unless is_retried contains
task_problems dag_id seen [] = []
task_problems dag_id seen (t ∷ ts) =
    unless (not (contains seen t.task_id)) (duplicate_task dag_id t.task_id)
    ++ unless (is_retried t) (no_retries dag_id t.task_id)
    ++ task_problems dag_id (t.task_id ∷ seen) ts

unfoldable pub any_callback : List TaskNode → Bool
any_callback [] = false
any_callback (t ∷ ts) = t.has_callback || any_callback ts

abbrev pub ids : List TaskNode → List String
ids = map (λ t. t.task_id)

-- `task.downstream_list` of the task with that identifier
unfoldable pub downstream_of : List TaskNode → String → List String
downstream_of [] v = []
downstream_of (t ∷ ts) v = if t.task_id == v then t.downstream else downstream_of ts v

-- The tasks reached so far, and the stack of those whose successors are still to be looked at.
pub record Traversal : Type 0 where
  pub reachable : List String
  pub frontier : List String

abbrev pub from_start : Traversal
from_start = record { reachable = "start" ∷ []; frontier = "start" ∷ [] }

unfoldable pub offer : Traversal → String → Traversal
unfolding contains
offer s v =
    if contains s.reachable v
    then s
    else record { reachable = v ∷ s.reachable; frontier = v ∷ s.frontier }

-- The loop over the tasks right behind the one that was popped.
unfoldable pub offer_all : Traversal → List String → Traversal
unfolding offer
offer_all s [] = s
offer_all s (v ∷ vs) = offer_all (offer s v) vs

unfoldable pub expand : List TaskNode → Traversal → String → List String → Traversal
unfolding offer_all downstream_of
expand tasks s current rest =
    offer_all record { reachable = s.reachable; frontier = rest } (downstream_of tasks current)

-- `while frontier`, on fuel of one round for each task; `none` is that it has run out.
unfoldable pub traverse : List TaskNode → ℕ → Traversal → Option (List String)
unfolding expand
traverse tasks zero s = elim s.frontier [ [] ↦ some s.reachable | v ∷ rest ↦ none ]
traverse tasks (suc fuel) s = elim s.frontier [
  | [] ↦ some s.reachable
  | v ∷ rest ↦ traverse tasks fuel (expand tasks s v rest)
]

unfoldable pub reachable_tasks : List TaskNode → Option (List String)
unfolding traverse
reachable_tasks tasks = traverse tasks (length tasks) from_start

-- One insertion of `sorted(set)`.
unfoldable pub insert_once : String → List String → List String
insert_once v [] = v ∷ []
insert_once v (w ∷ ws) =
    let rest = insert_once v ws in
    if w == v then w ∷ ws else if is_before w v then w ∷ rest else v ∷ w ∷ ws

unfoldable pub sorted_set : List String → List String
unfolding insert_once
sorted_set [] = []
sorted_set (v ∷ vs) = insert_once v (sorted_set vs)

-- `sorted({task.task_id for task in dag.tasks} - reachable)`
unfoldable pub orphans : List TaskNode → List String
unfolding reachable_tasks sorted_set keep contains
orphans tasks = elim (reachable_tasks tasks) [
  | none ↦ sorted_set (ids tasks)
  | some reached ↦ sorted_set (keep (λ v. not (contains reached v)) (ids tasks))
]

unfoldable pub start_problems : String → List TaskNode → List Problem
unfolding unless orphans contains
start_problems dag_id tasks =
    if contains (ids tasks) "start"
    then unless (is_empty (orphans tasks)) (unordered_tasks dag_id (orphans tasks))
    else []

unfoldable pub dag_problems : LoadedDag → List Problem
unfolding unless is_missing owner_of any_callback task_problems start_problems
dag_problems d =
    unless (not (is_missing d.description)) (no_description d.dag_id)
    ++ unless (not (owner_of d == "" || owner_of d == "airflow")) (bad_owner d.dag_id)
    ++ unless (not d.catchup) (catches_up d.dag_id)
    ++ unless (d.max_active_runs == 1) (concurrent_runs d.dag_id d.max_active_runs)
    ++ unless (d.has_default_callback || any_callback d.tasks) (no_failure_callback d.dag_id)
    ++ task_problems d.dag_id [] d.tasks
    ++ unless d.is_sortable (not_sortable d.dag_id)
    ++ start_problems d.dag_id d.tasks

unfoldable pub all_problems : List LoadedDag → List Problem
unfolding dag_problems
all_problems [] = []
all_problems (d ∷ ds) = dag_problems d ++ all_problems ds

-- `none` is an interpreter without Airflow. The DAGs are taken in the order of their identifiers.
unfoldable pub validate : Option DagBag → ℕ
unfolding all_problems
validate none = 2
validate (some bag) =
    if not (is_empty bag.import_errors)
    then 1
    else if is_empty bag.dags
    then 1
    else if is_empty (all_problems bag.dags)
    then 0
    else 1
