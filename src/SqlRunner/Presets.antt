-- ===== src/SqlRunner/Presets.antt =====
-- The named diagnostics of scripts/run_sql.py.
use snowflake_trade_pipeline.Prelude.{String, List, [], ◌∷◌}

-- The name of a diagnostic, what it says, and its SQL.
pub record Preset : Type 0 where
  pub name : String
  pub description : String
  pub sql : String

abbrev pub presets : List Preset
presets =
    record {
      name = "health";
      description = "Stage-by-stage pipeline SLA -- start here";
      sql = "select * from {db}.monitoring.vw_pipeline_sla";
    }
    ∷ record {
      name = "scorecard";
      description = "The data quality scorecard the Airflow gate reads";
      sql = "select * from {db}.{reporting}.rpt_data_quality_scorecard";
    }
    ∷ record {
      name = "arrivals";
      description = "Recent files: staged, loaded, or stalled";
      sql =
          "\n        select file_name, file_state, is_stalled, staged_at, first_row_loaded_at,\n               stage_to_load_seconds, rows_in_file\n        from {db}.monitoring.vw_file_arrival\n        order by coalesce(staged_at, first_row_loaded_at) desc nulls last\n        limit 25\n        ";
    }
    ∷ record {
      name = "batches";
      description = "Recent load batches, including anything stuck";
      sql =
          "\n        select batch_id, batch_type, batch_status, started_at, completed_at,\n               duration_seconds, row_count, error_count, is_stuck, error_message\n        from {db}.monitoring.vw_batch_health\n        order by started_at desc\n        limit 25\n        ";
    }
    ∷ record {
      name = "backlog";
      description = "How far behind is the transform layer";
      sql =
          "\n        select\n            (select count(*) from {db}.raw.trade_event_stream) as rows_in_stream,\n            (select count(*) from {db}.raw.trade_event_queue) as rows_in_queue,\n            (select count(*) from {db}.{intermediate}.int_trade_event_adjudicated)\n                as rows_adjudicated,\n            (select max(drained_at) from {db}.raw.trade_event_queue) as last_drained_at,\n            (select max(adjudicated_at) from {db}.{intermediate}.int_trade_event_adjudicated)\n                as last_adjudicated_at\n        ";
    }
    ∷ record {
      name = "rejects";
      description = "Top rejection reasons in the last 24 hours";
      sql =
          "\n        select rule_code, any_value(rule_name) as rule_name, count(*) as hits,\n               count(distinct trade_id) as trades\n        from {db}.{audit}.trade_rule_result\n        where evaluated_at >= dateadd('hour', -24, current_timestamp())\n          and is_blocking\n        group by rule_code\n        order by hits desc\n        ";
    }
    ∷ record {
      name = "parse-errors";
      description = "Lines that failed to parse and never reached the rule engine";
      sql =
          "\n        select logged_at, source_file_name, error_message, rejected_record\n        from {db}.raw.copy_error\n        order by logged_at desc\n        limit 25\n        ";
    }
    ∷ record {
      name = "dbt-runs";
      description = "Recent dbt invocations and their outcomes";
      sql =
          "\n        select invocation_id, any_value(run_status) as run_status,\n               min(run_started_at) as started_at,\n               count_if(resource_type = 'model') as models,\n               count_if(resource_type = 'test'\n                        and lower(node_status) in ('fail', 'error')) as tests_failed\n        from {db}.{audit}.dbt_run_result\n        group by invocation_id\n        order by started_at desc\n        limit 15\n        ";
    }
    ∷ record {
      name = "tasks";
      description = "Snowflake task history from the real-time source";
      sql =
          "\n        select name, state, scheduled_time, completed_time, error_message\n        from table({db}.information_schema.task_history(\n            scheduled_time_range_start => dateadd('hour', -24, current_timestamp())\n        ))\n        order by scheduled_time desc\n        limit 25\n        ";
    }
    ∷ record {
      name = "alerts";
      description = "Alert evaluation history -- proves an alert was working, not merely defined";
      sql =
          "\n        select name, scheduled_time, state, sql_error_message\n        from table({db}.information_schema.alert_history(\n            scheduled_time_range_start => dateadd('day', -2, current_timestamp())\n        ))\n        order by scheduled_time desc\n        limit 50\n        ";
    }
    ∷ record {
      name = "credits";
      description = "Credit burn by warehouse over the last fortnight";
      sql =
          "\n        select usage_date, warehouse_name, workload_class, credits_used\n        from {db}.monitoring.vw_warehouse_credits\n        where usage_date >= dateadd('day', -14, current_date())\n        order by usage_date desc, credits_used desc\n        ";
    }
    ∷ record {
      name = "expiry-overdue";
      description = "Matured trades still marked LIVE -- must be empty";
      sql =
          "\n        select trade_id, current_version, maturity_date, lifecycle_status,\n               counterparty_name, book_name, notional_amount, notional_currency\n        from {db}.{core}.fct_trade\n        where maturity_date < current_date()\n          and lifecycle_status not in ('EXPIRED', 'CANCELLED')\n        order by maturity_date\n        limit 100\n        ";
    }
    ∷ []
