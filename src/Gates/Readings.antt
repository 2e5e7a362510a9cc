-- ===== src/Gates/Readings.antt =====
-- The figures that the gates of airflow/dags/trade_pipeline.py read, with the queries that they send,
-- and the health report behind them. The line breaks of a query are left out; `int` and `str` of a
-- value are arguments.
use snowflake_trade_pipeline.Prelude.{
  ℕ, String, Bool, true, Option, none, some, List, [], ◌∷◌, string_eq,
}
use snowflake_trade_pipeline.Prelude.Dict.{lookup}
use snowflake_trade_pipeline.Result.{key_error, Result, ok, err, ◌>>=◌}
use snowflake_trade_pipeline.Deploy.Texts.{append}
use snowflake_trade_pipeline.SqlRunner.Table.{join}
use snowflake_trade_pipeline.Settings.{SnowflakeSettings, dbt_schema}
use snowflake_trade_pipeline.Session.{
  Value, Members, Call, ResultRow, Driver, Action, continue, return, execute, scalar,
}
use snowflake_trade_pipeline.Commands.Operations.{get_member}
use snowflake_trade_pipeline.Gates.{
  Thresholds, Outcome, gate_load_integrity, gate_reject_rate, gate_publish_readiness,
}
use snowflake_trade_pipeline.Gates.Ingest.{int_or_zero, with_session}

-- The parts of a text, one behind the other.
abbrev words : List String → String
words parts = join "" parts

unfoldable pub parse_errors_sql : String → String
unfolding join
parse_errors_sql database = words (
    "select count(*) from " ∷ database
    ∷ ".raw.copy_error where logged_at >= dateadd('hour', -2, current_timestamp())" ∷ [])

unfoldable pub stuck_sql : String → String
unfolding join
stuck_sql database = words (
    "select count(*) from " ∷ database
    ∷ ".raw.load_batch where batch_status = 'RUNNING' and started_at < dateadd('hour', -1, current_timestamp())"
    ∷ [])

unfoldable pub verdicts_sql : String → String → String
unfolding join
verdicts_sql database intermediate = words (
    "select count(*) as total_events, count_if(verdict = 'ACCEPTED') as accepted, count_if(verdict = 'REJECTED') as rejected, count_if(verdict = 'SUPERSEDED') as superseded from "
    ∷ database ∷ "." ∷ intermediate
    ∷ ".int_trade_event_adjudicated where adjudicated_at >= dateadd('hour', -2, current_timestamp())"
    ∷ [])

unfoldable pub top_rules_sql : String → String → String → String
unfolding join
top_rules_sql database intermediate core = words (
    "with rejected_codes as ( select code.value::string as rule_code from " ∷ database ∷ "."
    ∷ intermediate
    ∷ ".int_trade_event_adjudicated as adjudicated, lateral flatten(input => adjudicated.violated_rule_codes) as code where adjudicated.verdict = 'REJECTED' and adjudicated.adjudicated_at >= dateadd('hour', -2, current_timestamp()) ) select rejected_codes.rule_code, coalesce(reason.rule_name, 'unknown rule') as rule_name, count(*) as hits from rejected_codes left join "
    ∷ database ∷ "." ∷ core
    ∷ ".ref_rejection_reason as reason on reason.rule_code = rejected_codes.rule_code group by rejected_codes.rule_code, reason.rule_name order by hits desc limit 5"
    ∷ [])

-- `metrics = rows[0] if rows else {}`
unfoldable pub metrics_of : List ResultRow → ResultRow
metrics_of [] = []
metrics_of (row ∷ rows) = row

-- `row[column]` of each of these columns
unfoldable pub with_columns : ResultRow → List String → Result (Unit {0})
unfolding lookup
with_columns row [] = ok tt
with_columns row (column ∷ columns) = elim (lookup row column) [
  | none ↦ err key_error
  | some v ↦ with_columns row columns
]

unfoldable pub with_rules : List ResultRow → Result (Unit {0})
unfolding with_columns
with_rules [] = ok tt
with_rules (row ∷ rows) = do
  _ ← with_columns row ("RULE_CODE" ∷ "RULE_NAME" ∷ "HITS" ∷ [])
  with_rules rows

-- The task does not succeed.
abbrev pub raises : Result Outcome → Bool
raises (ok o) = o.raised
raises (err e) = true

module _ (int : String → Result ℕ) where
  -- The total and the rejected, behind which the accepted and the superseded are read for the detail.
  unfoldable pub reject_figures : List ResultRow × List ResultRow → Result (ℕ × ℕ)
  unfolding metrics_of int_or_zero with_rules lookup
  reject_figures (rows, top_rules) = do
    total ← int_or_zero int (lookup (metrics_of rows) "TOTAL_EVENTS")
    rejected ← int_or_zero int (lookup (metrics_of rows) "REJECTED")
    _ ← int_or_zero int (lookup (metrics_of rows) "ACCEPTED")
    _ ← int_or_zero int (lookup (metrics_of rows) "SUPERSEDED")
    _ ← with_rules top_rules
    ok (total, rejected)

  unfoldable pub load_figures : Members → Result (ℕ × ℕ)
  unfolding int_or_zero get_member
  load_figures load_result = do
    rows_loaded ← int_or_zero int (get_member load_result "rows_loaded")
    rows_errored ← int_or_zero int (get_member load_result "rows_errored")
    ok (rows_loaded, rows_errored)

  -- No row at all is a failure without a notice.
  unfoldable pub judge_scorecard : (Option Value → String) → List ResultRow → Result Outcome
  unfolding int_or_zero gate_publish_readiness lookup
  judge_scorecard shown [] = ok record { notices = []; raised = true }
  judge_scorecard shown (scorecard ∷ rows) = do
    overdue ← int_or_zero int (lookup scorecard "OVERDUE_EXPIRY_TRADES")
    ok (gate_publish_readiness (shown (lookup scorecard "OVERALL_STATUS")) overdue)

  module _ (driver : Driver) (max_retries : ℕ) where
    -- `int(session.scalar(…) or 0)`
    unfoldable pub figure : String → Action ℕ
    unfolding scalar int_or_zero
    figure sql s =
        continue (scalar driver max_retries sql [] s) λ v. return (int_or_zero int (some v))

    unfoldable pub load_readings : String → Action ℕ
    unfolding figure parse_errors_sql stuck_sql
    load_readings database s =
        continue (figure (parse_errors_sql database) s) λ recent. figure (stuck_sql database)

    unfoldable pub run_load_integrity :
        Thresholds → String → Members → List Call → Result Outcome × List Call
    unfolding load_figures with_session load_readings gate_load_integrity
    run_load_integrity thresholds database load_result calls = elim (load_figures load_result) [
      | err e ↦ (err e, calls)
      | ok counts ↦
          let out = with_session driver max_retries (load_readings database) calls in
          (out.0 >>= (λ stuck. ok (gate_load_integrity thresholds stuck counts.0 counts.1)), out.1)
    ]

    unfoldable pub reject_readings : SnowflakeSettings → Action (List ResultRow × List ResultRow)
    unfolding execute verdicts_sql top_rules_sql dbt_schema
    reject_readings settings s =
        let intermediate = dbt_schema settings "intermediate" in
        continue (execute driver max_retries (verdicts_sql settings.database intermediate) [] s)
          λ rows t.
            continue
              (execute driver max_retries
                (top_rules_sql settings.database intermediate (dbt_schema settings "core")) [] t)
              λ top_rules. return (ok (rows, top_rules))

    unfoldable pub run_reject_rate :
        Thresholds → SnowflakeSettings → List Call → Result Outcome × List Call
    unfolding with_session reject_readings reject_figures gate_reject_rate
    run_reject_rate thresholds settings calls =
        let out = with_session driver max_retries (reject_readings settings) calls in
        (
          out.0
              >>= reject_figures
              >>= (λ figures. ok (gate_reject_rate thresholds figures.0 figures.1)),
          out.1,
        )

    unfoldable pub scorecard_of :
        SnowflakeSettings → List Call → Result (List ResultRow) × List Call
    unfolding with_session execute dbt_schema join
    scorecard_of settings calls =
        with_session driver max_retries
          (execute driver max_retries
            (words (
              "select * from "
              ∷ settings.database
              ∷ "."
              ∷ dbt_schema settings "reporting"
              ∷ ".rpt_data_quality_scorecard"
              ∷ []))
            [])
          calls

    unfoldable pub run_publish_readiness :
        (Option Value → String) → SnowflakeSettings → List Call → Result Outcome × List Call
    unfolding scorecard_of judge_scorecard
    run_publish_readiness shown settings calls =
        let out = scorecard_of settings calls in (out.0 >>= judge_scorecard shown, out.1)

    -- The report on the platform's health raises nothing.
    unfoldable pub report_health : String → List Call → Result (Unit {0}) × List Call
    unfolding with_session execute
    report_health database calls =
        let out =
          with_session driver max_retries
            (execute driver max_retries
              (append "select * from " (append database ".monitoring.vw_pipeline_sla")) [])
            calls in
        (ok tt, out.1)
