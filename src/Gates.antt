-- ===== src/Gates.antt =====
-- The gates of airflow/dags/trade_pipeline.py: what each decides on the figures that it reads, the
-- notices that it sends, and the order in which a run of the DAG passes them. A rate is a number
-- of millionths, and a quotient is compared exactly where the code compares floating-point numbers.
pub mod Dbt
pub mod Ingest
pub mod OneShot
pub mod Order
pub mod Preflight
pub mod Publishing
pub mod Readings
pub mod Scorecard
pub mod Verification
use snowflake_trade_pipeline.Prelude.{
  is_empty, ℕ, zero, suc, ◌+◌, ◌*◌, String, Bool, true, false, not, ◌&&◌, ◌||◌, List, [], ◌∷◌, ◌++◌,
  map, ltb, if◌then◌else◌, ◌==◌, nat_eq, string_eq, keep,
}
use snowflake_trade_pipeline.Reconcile.{ReconciliationResult, passed}

-- `notify_dq_gate_breach(gate, detail, blocking=…)`, without the detail.
pub record Notice : Type 0 where
  pub gate : String
  pub blocking : Bool

-- What a gate comes to: the notices sent, and whether it raised `AirflowFailException`.
pub record Outcome : Type 0 where
  pub notices : List Notice
  pub raised : Bool

abbrev pub passes : Outcome
passes = record { notices = []; raised = false }

abbrev pub warns : String → Outcome
warns gate = record { notices = record { gate = gate; blocking = false } ∷ []; raised = false }

abbrev pub fails : String → Outcome
fails gate = record { notices = record { gate = gate; blocking = true } ∷ []; raised = true }

-- `DQ_MAX_PARSE_ERROR_RATE`, `DQ_MAX_REJECT_RATE` and `DQ_MIN_EVENTS_FOR_GATE`
pub record Thresholds : Type 0 where
  pub max_parse_error_rate : ℕ
  pub max_reject_rate : ℕ
  pub min_events_for_gate : ℕ

-- `(part / total) if total else 0.0` is above `rate` millionths.
unfoldable pub rate_exceeds : ℕ → ℕ → ℕ → Bool
rate_exceeds rate part total = ltb 0 total && ltb (rate * total) (part * 1000000)

module _ (thresholds : Thresholds) where
  open thresholds use {max_parse_error_rate, max_reject_rate, min_events_for_gate}

  unfoldable pub gate_load_integrity : ℕ → ℕ → ℕ → Outcome
  unfolding rate_exceeds
  gate_load_integrity stuck_batches rows_loaded rows_errored =
      if ltb 0 stuck_batches
      then fails "load_integrity"
      else if rate_exceeds max_parse_error_rate rows_errored (rows_loaded + rows_errored)
      then fails "load_integrity"
      else if ltb 0 rows_errored
      then warns "load_integrity"
      else passes

  unfoldable pub gate_reject_rate : ℕ → ℕ → Outcome
  unfolding rate_exceeds
  gate_reject_rate total rejected =
      if ltb total min_events_for_gate
      then passes
      else if rate_exceeds max_reject_rate rejected total
      then fails "reject_rate"
      else if ltb 0 total && ltb (max_reject_rate * 6 * total) (rejected * 10000000)
      then warns "reject_rate"
      else passes

-- The statuses of dbt's freshness artifact.
unfoldable pub check_source_freshness : List String → Outcome
unfolding keep
check_source_freshness statuses =
    if not (is_empty (keep (λ s. s == "error") statuses))
    then fails "source_freshness"
    else if not (is_empty (keep (λ s. s == "warn") statuses))
    then warns "source_freshness"
    else passes

-- The gate behind the reconciliations of the batch's manifests.
unfoldable pub gate_reconciliation : List ReconciliationResult → Outcome
unfolding keep passed
gate_reconciliation results =
    if is_empty (keep (λ r. not (passed r)) results) then passes else fails "reconciliation"

-- The one row of the scorecard: its status and its overdue expiries.
unfoldable pub gate_publish_readiness : String → ℕ → Outcome
gate_publish_readiness status overdue =
    if ltb 0 overdue
    then fails "publish_readiness"
    else if status == "RED"
    then fails "publish_readiness"
    else if status == "AMBER"
    then warns "publish_readiness"
    else passes

-- The figures that the gates of one run read.
pub record Figures : Type 0 where
  pub stuck_batches : ℕ
  pub rows_loaded : ℕ
  pub rows_errored : ℕ
  pub statuses : List String
  pub total_events : ℕ
  pub rejected : ℕ
  pub results : List ReconciliationResult
  pub overall_status : String
  pub overdue : ℕ

pub data TriggerRule : Type 0 where
  all_success all_done : TriggerRule

pub record Task : Type 0 where
  pub task_id : String
  pub trigger_rule : TriggerRule

abbrev plain : String → Task
plain task_id = record { task_id = task_id; trigger_rule = all_success }

-- The tasks of the DAG, each with the one ahead of it as its upstream.
abbrev pub dag : List Task
dag =
    plain "start"
    ∷ plain "preflight"
    ∷ plain "simulate_arrivals"
    ∷ plain "wait_for_files"
    ∷ plain "load_files"
    ∷ plain "drain_stream"
    ∷ plain "gate_load_integrity"
    ∷ plain "dbt_source_freshness"
    ∷ plain "check_source_freshness"
    ∷ plain "dbt_seed"
    ∷ plain "dbt_run_staging"
    ∷ plain "dbt_run_adjudication"
    ∷ plain "gate_reject_rate"
    ∷ plain "dbt_run_marts"
    ∷ plain "dbt_test"
    ∷ plain "dbt_snapshot"
    ∷ plain "reconcile"
    ∷ plain "gate_publish_readiness"
    ∷ record { task_id = "report_health"; trigger_rule = all_done }
    ∷ plain "end"
    ∷ []

-- Whether a task succeeds: a gate by its figures, and every other as the argument says.
unfoldable pub succeeds : Thresholds → Figures → (String → Bool) → String → Bool
unfolding gate_load_integrity check_source_freshness gate_reject_rate gate_reconciliation
    gate_publish_readiness
succeeds thresholds f others task =
    if task == "gate_load_integrity"
    then not (gate_load_integrity thresholds f.stuck_batches f.rows_loaded f.rows_errored).raised
    else if task == "check_source_freshness"
    then not (check_source_freshness f.statuses).raised
    else if task == "gate_reject_rate"
    then not (gate_reject_rate thresholds f.total_events f.rejected).raised
    else if task == "reconcile"
    then not (gate_reconciliation f.results).raised
    else if task == "gate_publish_readiness"
    then not (gate_publish_readiness f.overall_status f.overdue).raised
    else others task

-- Airflow starts a task by its rule: if the task ahead of it has succeeded, or once it is done.
unfoldable pub is_triggered : TriggerRule → Bool → Bool
is_triggered all_success upstream_succeeded = upstream_succeeded
is_triggered all_done upstream_succeeded = true

-- The tasks that are started.
unfoldable pub started : (String → Bool) → Bool → List Task → List String
started ok upstream_succeeded [] = []
started ok upstream_succeeded (t ∷ ts) =
    let runs = is_triggered t.trigger_rule upstream_succeeded in
    let rest = started ok (runs && ok t.task_id) ts in if runs then t.task_id ∷ rest else rest
