-- ===== src/Gates/Dbt.antt =====
-- The commands of airflow/dags/trade_pipeline.py that run dbt, and what its freshness artifact says.
use snowflake_trade_pipeline.Prelude.{ℕ, String, Option, none, some, [], ◌∷◌, map, string_eq}
use snowflake_trade_pipeline.Prelude.Dict.{Dict, insert}
use snowflake_trade_pipeline.SqlRunner.Table.{join}
use snowflake_trade_pipeline.Gates.{Outcome, passes, check_source_freshness}

-- `DBT_PROJECT_DIR`, `DBT_PROFILES_DIR`, `DBT_TARGET` and `DBT_TARGET_PATH`
pub record DbtSettings : Type 0 where
  pub project_dir : String
  pub profiles_dir : String
  pub target : String
  pub target_path : String

unfoldable pub dbt_base : DbtSettings → String
unfolding join
dbt_base s = join "" ("cd " ∷ s.project_dir ∷ " && dbt --no-use-colors --log-format json" ∷ [])

unfoldable pub dbt_flags : DbtSettings → String
unfolding join
dbt_flags s = join "" ("--profiles-dir " ∷ s.profiles_dir ∷ " --target " ∷ s.target ∷ [])

-- A task that runs a command; its timeouts are in minutes.
pub record BashOperator : Type 0 where
  pub task_id : String
  pub bash_command : String
  pub retries : ℕ
  pub execution_timeout : ℕ
  pub sla : Option ℕ

-- The `bash_command` of a task: a command of dbt, and what stands behind the flags.
unfoldable pub dbt_command : DbtSettings → String → String → String
unfolding dbt_base dbt_flags join
dbt_command s command rest = join "" (dbt_base s ∷ " " ∷ command ∷ " " ∷ dbt_flags s ∷ rest ∷ [])

unfoldable pub dbt_source_freshness : DbtSettings → BashOperator
unfolding dbt_command join
dbt_source_freshness s = record {
  task_id = "dbt_source_freshness";
  bash_command =
      dbt_command s "source freshness"
        (join "" (" --output " ∷ s.target_path ∷ "/sources.json || true" ∷ []));
  retries = 1;
  execution_timeout = 10;
  sla = none;
}

unfoldable pub dbt_seed : DbtSettings → BashOperator
unfolding dbt_command join
dbt_seed s = record {
  task_id = "dbt_seed";
  bash_command = dbt_command s "seed" "";
  retries = 2;
  execution_timeout = 10;
  sla = none;
}

unfoldable pub dbt_run_staging : DbtSettings → BashOperator
unfolding dbt_command join
dbt_run_staging s = record {
  task_id = "dbt_run_staging";
  bash_command = dbt_command s "run" " --select stg_trade_event int_trade_event_typed";
  retries = 2;
  execution_timeout = 15;
  sla = none;
}

unfoldable pub dbt_run_adjudication : DbtSettings → BashOperator
unfolding dbt_command join
dbt_run_adjudication s = record {
  task_id = "dbt_run_adjudication";
  bash_command = dbt_command s "run" " --select int_trade_event_adjudicated";
  retries = 2;
  execution_timeout = 30;
  sla = some 20;
}

unfoldable pub dbt_run_marts : DbtSettings → BashOperator
unfolding dbt_command join
dbt_run_marts s = record {
  task_id = "dbt_run_marts";
  bash_command =
      dbt_command s "run"
        " --select fct_trade_version fct_trade fct_trade_rejected trade_rule_result dim_counterparty dim_book dim_product agg_trade_status_daily agg_rejection_analysis rpt_trade_expiring_soon rpt_data_quality_scorecard";
  retries = 2;
  execution_timeout = 30;
  sla = some 25;
}

unfoldable pub dbt_test : DbtSettings → BashOperator
unfolding dbt_command join
dbt_test s = record {
  task_id = "dbt_test";
  bash_command = dbt_command s "test" " --store-failures";
  retries = 1;
  execution_timeout = 25;
  sla = none;
}

unfoldable pub dbt_snapshot : DbtSettings → BashOperator
unfolding dbt_command join
dbt_snapshot s = record {
  task_id = "dbt_snapshot";
  bash_command = dbt_command s "snapshot" "";
  retries = 2;
  execution_timeout = 20;
  sla = none;
}

-- `{r.get("unique_id"): r.get("status") for r in results}`, of results that have an identifier and a
-- status.
unfoldable pub statuses_of : Dict String String → Dict String String → Dict String String
unfolding insert
statuses_of d [] = d
statuses_of d ((unique_id, status) ∷ results) = statuses_of (insert d unique_id status) results

-- The results of sources.json; without the file freshness is unknown.
unfoldable pub run_source_freshness : Option (Dict String String) → Outcome
unfolding statuses_of check_source_freshness
run_source_freshness none = passes
run_source_freshness (some results) =
    check_source_freshness (map (λ p. p.1) (statuses_of [] results))
