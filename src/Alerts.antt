-- ===== src/Alerts.antt =====
-- airflow/dags/utils/alerting.py: whom a callback tells, and that it never fails the task. The mail
-- server and the webhook answer a message by an error or none, and the bodies are left out.
pub mod Callbacks
use snowflake_trade_pipeline.Prelude.{
  ℕ, ◌+◌, String, Bool, true, false, not, ◌&&◌, ◌||◌, Option, none, some, List, [], ◌∷◌, ◌++◌, ltb,
  if◌then◌else◌, ◌==◌, string_eq, contains,
}
use snowflake_trade_pipeline.Prelude.Dict.{Dict}
use snowflake_trade_pipeline.Result.{Error, Result, ok, err}
use snowflake_trade_pipeline.Deploy.Texts.{append}
use snowflake_trade_pipeline.Deploy.Render.{has_chars}
use snowflake_trade_pipeline.Deploy.Phases.{starts_with, occurs}

abbrev pub runbook_sections : Dict String String
runbook_sections =
    ("preflight", "docs/runbook.md#preflight-failures")
    ∷ ("wait_for", "docs/runbook.md#file-arrival-delay")
    ∷ ("load", "docs/runbook.md#load-failures")
    ∷ ("drain", "docs/runbook.md#stream-drain-failures")
    ∷ ("dq_gate", "docs/runbook.md#data-quality-gate-tripped")
    ∷ ("dbt_source_freshness", "docs/runbook.md#source-freshness-failure")
    ∷ ("dbt_seed", "docs/runbook.md#dbt-failures")
    ∷ ("dbt_run", "docs/runbook.md#dbt-failures")
    ∷ ("dbt_test", "docs/runbook.md#dbt-test-failures")
    ∷ ("dbt_snapshot", "docs/runbook.md#snapshot-failures")
    ∷ ("reconcile", "docs/runbook.md#reconciliation-mismatch")
    ∷ []

unfoldable pub section_for : Dict String String → String → String
unfolding starts_with occurs
section_for [] task_id = "docs/runbook.md"
section_for ((prefix, section) ∷ sections) task_id =
    if starts_with prefix task_id || occurs prefix task_id
    then section
    else section_for sections task_id

unfoldable pub runbook_for : String → String
unfolding section_for
runbook_for task_id = section_for runbook_sections task_id

-- What `_extract` finds in a context: `none` is a missing attribute.
pub record Context : Type 0 where
  pub dag_id : Option String
  pub task_id : Option String
  pub run_id : Option String
  pub try_number : Option String
  pub max_tries : Option String
  pub exception : Option String

-- `getattr(…, name, default)`
abbrev pub attribute : Option String → String → String
attribute none default = default
attribute (some s) default = s

pub record Info : Type 0 where
  pub dag_id : String
  pub task_id : String
  pub run_id : String
  pub try_number : String
  pub max_tries : String

unfoldable pub extract : Context → Info
extract c = record {
  dag_id = attribute c.dag_id "unknown";
  task_id = attribute c.task_id "unknown";
  run_id = attribute c.run_id "unknown";
  try_number = attribute c.try_number "?";
  max_tries = attribute c.max_tries "?";
}

pub data Message : Type 0 where
  mail : String → Message
  slack : String → Message

-- How the delivery of a message goes: well, with an error that its sender catches, or another one.
pub data Delivery : Type 0 where
  delivered : Delivery
  caught : Delivery
  uncaught : Error → Delivery

unfoldable pub is_final : Info → Bool
is_final info = info.try_number == info.max_tries

unfoldable pub failure_subject : Info → String
unfolding is_final
failure_subject info = append (if is_final info then "[FAILED] " else "[FAILING] ") (
    append info.dag_id (
      append "." (
        append info.task_id
          (append " (attempt " (append info.try_number (append "/" (append info.max_tries ")")))))))

-- The message to Slack, without its blocks, which give the runbook's section.
unfoldable pub failure_text : Info → String
failure_text info =
    append ":rotating_light: *"
      (append info.dag_id (append "* failed at `" (append info.task_id "`")))

unfoldable pub gate_verdict : Bool → String
gate_verdict blocking = if blocking then "BLOCKED the pipeline" else "raised a warning"

module _ (alert_email slack_webhook_url : String) (deliver : Message → Delivery) where
  -- The messages tried are a list, the first one first.
  unfoldable pub send_email : String → List Message → Result (Unit {0}) × List Message
  send_email subject sent =
      if not (has_chars alert_email) then (ok tt, sent) else (ok tt, sent ++ mail subject ∷ [])

  -- URLError and TimeoutError are caught here, and others are not.
  unfoldable pub send_slack : String → List Message → Result (Unit {0}) × List Message
  send_slack words sent = if not (has_chars slack_webhook_url) then (ok tt, sent) else (
    elim (deliver (slack words)) [ delivered ↦ ok tt | caught ↦ ok tt | uncaught e ↦ err e ],
    sent ++ slack words ∷ [],
  )

  unfoldable pub notify_failure : Context → List Message → Result (Unit {0}) × List Message
  unfolding extract failure_subject send_email is_final send_slack failure_text
  notify_failure context sent =
      let info = extract context in
      let (mailed, later) = send_email (failure_subject info) sent in
      elim mailed [
        | err e ↦ (err e, later)
        | ok _ ↦ if is_final info then send_slack (failure_text info) later else (ok tt, later)
      ]

  -- The detail of a gate's message may fail to be put into words.
  unfoldable pub notify_breach :
      String → Result String → Bool → List Message → Result (Unit {0}) × List Message
  unfolding gate_verdict send_email send_slack
  notify_breach gate_name detail blocking sent =
      let verdict = gate_verdict blocking in
      let (mailed, later) =
        send_email (append "[DQ GATE] " (append gate_name (append " " verdict))) sent in
      elim mailed [
        | err e ↦ (err e, later)
        | ok _ ↦ elim detail [
          | err e ↦ (err e, later)
          | ok words ↦
              send_slack
                (append (if blocking then ":no_entry:" else ":warning:") (
                  append " DQ gate *" (
                    append gate_name
                      (append "* " (append verdict (append ": `" (append words "`")))))))
                later
        ]
      ]

-- `_never_raises`
unfoldable pub never_raises : Result (Unit {0}) × List Message → Result (Unit {0}) × List Message
never_raises (ok u, sent) = (ok u, sent)
never_raises (err e, sent) = (ok tt, sent)

module _ (alert_email slack_webhook_url : String) (deliver : Message → Delivery) where
  unfoldable pub on_failure : Context → List Message → Result (Unit {0}) × List Message
  unfolding notify_failure never_raises
  on_failure context sent =
      never_raises (notify_failure alert_email slack_webhook_url deliver context sent)

  unfoldable pub notify_dq_gate_breach :
      String → Result String → Bool → List Message → Result (Unit {0}) × List Message
  unfolding notify_breach never_raises
  notify_dq_gate_breach gate_name detail blocking sent =
      never_raises
        (notify_breach alert_email slack_webhook_url deliver gate_name detail blocking sent)

  -- Only the log is written to.
  unfoldable pub on_retry : Context → List Message → Result (Unit {0}) × List Message
  unfolding never_raises
  on_retry context sent = never_raises (ok tt, sent)

  unfoldable pub on_success : Context → List Message → Result (Unit {0}) × List Message
  unfolding never_raises
  on_success context sent = never_raises (ok tt, sent)

  -- The DAG's identifier, where it has one, and the tasks that are late.
  unfoldable pub on_sla_miss :
      Option String → String → List Message → Result (Unit {0}) × List Message
  unfolding never_raises send_email send_slack
  on_sla_miss dag_id task_list sent =
      let (mailed, later) =
        send_email alert_email slack_webhook_url deliver
          (append "[SLA MISS] " (attribute dag_id "trade_pipeline")) sent in
      never_raises (elim mailed [
        | err e ↦ (err e, later)
        | ok _ ↦
            send_slack alert_email slack_webhook_url deliver
              (append ":hourglass_flowing_sand: SLA miss on *"
                (append (attribute dag_id "?") (append "*: `" (append task_list "`"))))
              later
      ])
