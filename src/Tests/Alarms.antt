-- ===== src/Tests/Alarms.antt =====
-- A callback whose webhook fails: the theorem on Alerts at it.
use snowflake_trade_pipeline.Prelude.{◌≡◌, refl, none, some, [], ◌∷◌}
use snowflake_trade_pipeline.Result.{value_error, ok}
use snowflake_trade_pipeline.Deploy.Phases.{starts_with, occurs}
use snowflake_trade_pipeline.Alerts.{
  Context, extract, Message, Delivery, uncaught, mail, on_failure, notify_failure, failure_subject,
  is_final, send_email, send_slack, failure_text, never_raises, runbook_for, section_for,
}
use snowflake_trade_pipeline.Alerts.Callbacks.{failure_messages, on_failure-sent}

abbrev last_attempt : Context
last_attempt = record {
  dag_id = some "trade_pipeline";
  task_id = some "ingest.load_files";
  run_id = some "manual__1";
  try_number = some "3";
  max_tries = some "3";
  exception = none;
}

abbrev deliver : Message → Delivery
deliver message = uncaught value_error

on_failure-sent_example :
    on_failure "ops@example.com" "https://hooks" deliver last_attempt []
    ≡ (ok tt, failure_messages "ops@example.com" "https://hooks" (extract last_attempt))
on_failure-sent_example = on_failure-sent "ops@example.com" "https://hooks" deliver last_attempt []

-- The gate of the rejections is not led to the section on tripped gates.
runbook_for_gate : runbook_for "transform.gate_reject_rate" ≡ "docs/runbook.md"
unfolding runbook_for section_for starts_with occurs
runbook_for_gate = refl

-- The attempt behind the last retry is not taken for the final one.
abbrev final_attempt : Context
final_attempt = record last_attempt { try_number = some "4" }

final_attempt_mailed :
    (on_failure "ops@example.com" "https://hooks" deliver final_attempt []).1
    ≡ mail "[FAILING] trade_pipeline.ingest.load_files (attempt 4/3)" ∷ []
unfolding on_failure notify_failure extract failure_subject is_final send_email send_slack
    failure_text never_raises
final_attempt_mailed = refl
