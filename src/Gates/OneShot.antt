-- ===== src/Gates/OneShot.antt =====
-- airflow/dags/utils/snowflake.py: the tag of a task's session, and a query in a session of its own.
use snowflake_trade_pipeline.Prelude.{ℕ, String, List, [], ◌∷◌}
use snowflake_trade_pipeline.Result.{Result}
use snowflake_trade_pipeline.SqlRunner.Table.{join}
use snowflake_trade_pipeline.Session.{Value, Call, ResultRow, Driver, execute, scalar}
use snowflake_trade_pipeline.Gates.Ingest.{with_session}

-- The suffix of the query tag.
unfoldable pub task_tag : String → String → String
unfolding join
task_tag task_id run_id = join "" ("component=airflow|task=" ∷ task_id ∷ "|run=" ∷ run_id ∷ [])

-- The connector of a session with that tag.
module _ (driver : String → Driver) (max_retries : ℕ) (task_id run_id : String) where
  unfoldable pub scalar_once : String → List Call → Result Value × List Call
  unfolding with_session scalar task_tag
  scalar_once sql =
      let tagged = driver (task_tag task_id run_id) in
      with_session tagged max_retries (scalar tagged max_retries sql [])

  unfoldable pub query_once : String → List Call → Result (List ResultRow) × List Call
  unfolding with_session execute task_tag
  query_once sql =
      let tagged = driver (task_tag task_id run_id) in
      with_session tagged max_retries (execute tagged max_retries sql [])
