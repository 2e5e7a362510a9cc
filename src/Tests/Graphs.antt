-- ===== src/Tests/Graphs.antt =====
-- The DAG of the repository, and one whose last task hangs in the air: the theorem on Validation at
-- them.
use snowflake_trade_pipeline.Prelude.{
  string_eq, is_empty, ◌≡◌, refl, ◌↔◌, String, true, false, some, List, [], ◌∷◌, All, contains,
}
use snowflake_trade_pipeline.Gates.{Task, dag}
use snowflake_trade_pipeline.Deploy.Phases.{starts_with, occurs}
use snowflake_trade_pipeline.Settings.Casing.{lower}
use snowflake_trade_pipeline.Validation.{
  TaskNode, DagBag, unless, is_missing, owner_of, is_sensor, is_retried, task_problems,
  any_callback, downstream_of, offer, offer_all, expand, traverse, reachable_tasks, insert_once,
  sorted_set, orphans, start_problems, dag_problems, all_problems, validate,
}
use snowflake_trade_pipeline.Validation.Reachable.{IsReachable, reachable_tasks-AreReached}
use snowflake_trade_pipeline.Validation.Soundness.{IsValid, validate-AreValid}

abbrev node : String → List String → TaskNode
node task_id downstream = record {
  task_id = task_id;
  class_name = "PythonOperator";
  retries = 2;
  has_callback = false;
  downstream = downstream;
}

-- Each task has the next one right behind it.
abbrev chained : List Task → List TaskNode
chained [] = []
chained (t ∷ []) = node t.task_id [] ∷ []
chained (t ∷ (u ∷ ts)) = node t.task_id (u.task_id ∷ []) ∷ chained (u ∷ ts)

abbrev loaded : List TaskNode → DagBag
loaded tasks = record {
  import_errors = [];
  dags =
      record {
        dag_id = "trade_pipeline";
        description = some "Ingest, validate, adjudicate and publish trade lifecycle events.";
        default_owner = some "data-engineering";
        owner = "airflow";
        catchup = false;
        max_active_runs = 1;
        has_default_callback = true;
        tasks = tasks;
        is_sortable = true;
      }
      ∷ [];
}

-- The task `load` has no task ahead of it, as where a group is chained by its last task.
abbrev hanging : List TaskNode
hanging =
    node "start" ("gate" ∷ [])
    ∷ node "load" ("gate" ∷ [])
    ∷ node "gate" ("end" ∷ [])
    ∷ node "end" []
    ∷ []

abbrev ordered : List TaskNode
ordered = node "start" ("load" ∷ []) ∷ node "load" ("end" ∷ []) ∷ node "end" [] ∷ []

dag_validated :
    (validate (some (loaded (chained dag))) ≡ 0) × (validate (some (loaded hanging)) ≡ 1)
unfolding validate all_problems dag_problems unless is_missing owner_of any_callback task_problems
    is_retried is_sensor occurs lower starts_with start_problems orphans reachable_tasks traverse
    expand offer_all offer downstream_of sorted_set insert_once contains
dag_validated = (refl, refl)

hanging_found : orphans hanging ≡ "load" ∷ []
unfolding orphans reachable_tasks traverse expand offer_all offer downstream_of sorted_set
    insert_once contains
hanging_found = refl

validate-AreValid_example :
    (validate (some (loaded ordered)) ≡ 0)
    ↔ (is_empty (loaded ordered).import_errors ≡ true)
      × (is_empty (loaded ordered).dags ≡ false)
      × All IsValid (loaded ordered).dags
unfolding contains
validate-AreValid_example =
    validate-AreValid (loaded ordered) ((((refl, tt), ((refl, tt), (tt, tt)))), tt)

reachable_tasks-AreReached_example :
    (reached : List String) × (reachable_tasks hanging ≡ some reached)
    × ((v : String) → (contains reached v ≡ true) ↔ IsReachable hanging v)
unfolding contains
reachable_tasks-AreReached_example =
    reachable_tasks-AreReached hanging ((refl, tt), ((refl, tt), ((refl, tt), (tt, tt)))) refl
