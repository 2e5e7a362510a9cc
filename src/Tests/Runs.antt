-- ===== src/Tests/Runs.antt =====
-- A run of the DAG whose gates all pass, and one that a gate stops.
use snowflake_trade_pipeline.Prelude.{
  String, Bool, ◌≡◌, refl, true, [], ◌∷◌, arith, contains, keep, string_eq,
}
use snowflake_trade_pipeline.Gates.{
  Thresholds, Figures, succeeds, started, is_triggered, dag, gate_load_integrity, gate_reject_rate,
  check_source_freshness, gate_reconciliation, gate_publish_readiness, rate_exceeds,
}
use snowflake_trade_pipeline.Gates.Publishing.{
  IsPlausible, IsPublishable, marts-IsPlausible, readiness-IsPublishable, end-started,
}

abbrev thresholds : Thresholds
thresholds = record {
  max_parse_error_rate = 50000;
  max_reject_rate = 250000;
  min_events_for_gate = 50;
}

abbrev figures : Figures
figures = record {
  stuck_batches = 0;
  rows_loaded = 98;
  rows_errored = 2;
  statuses = "pass" ∷ "warn" ∷ [];
  total_events = 98;
  rejected = 9;
  results = [];
  overall_status = "GREEN";
  overdue = 0;
}

abbrev always : String → Bool
always task = true

runs_to_marts :
    contains (started (succeeds thresholds figures always) true dag) "dbt_run_marts" ≡ true
unfolding contains started is_triggered succeeds keep gate_load_integrity gate_reject_rate
    check_source_freshness gate_reconciliation gate_publish_readiness rate_exceeds
runs_to_marts = refl

runs_to_the_last_gate :
    contains (started (succeeds thresholds figures always) true dag) "gate_publish_readiness" ≡ true
unfolding contains started is_triggered succeeds keep gate_load_integrity gate_reject_rate
    check_source_freshness gate_reconciliation gate_publish_readiness rate_exceeds
runs_to_the_last_gate = refl

passes_the_last_gate : succeeds thresholds figures always "gate_publish_readiness" ≡ true
unfolding succeeds gate_publish_readiness
passes_the_last_gate = refl

marts-IsPlausible_example : IsPlausible thresholds figures
marts-IsPlausible_example = marts-IsPlausible thresholds figures always (omega arith) runs_to_marts

readiness-IsPublishable_example : IsPublishable thresholds figures
readiness-IsPublishable_example =
    readiness-IsPublishable thresholds figures always (omega arith) runs_to_the_last_gate
      passes_the_last_gate

-- The figures of a run that a gate stops.
abbrev stopped : Figures
stopped = record figures { stuck_batches = 1 }

end-started_example : contains (started (succeeds thresholds stopped always) true dag) "end" ≡ true
end-started_example = end-started thresholds stopped always refl
