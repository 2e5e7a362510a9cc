-- ===== src/Tests/Commands.antt =====
-- The operators' commands at small inputs: the settings of a laptop, a template, two statements of
-- which one fails, and a run of the DAG.
use snowflake_trade_pipeline.Prelude.{
  ◌≡◌, ◌↔◌, refl, String, true, false, none, some, Option, List, [], ◌∷◌, length, All,
  if◌then◌else◌, ◌==◌, string_eq, nat_eq, keep,
}
use snowflake_trade_pipeline.Prelude.Dict.{Dict, lookup}
use snowflake_trade_pipeline.Result.{type_error, Result, ok, Returns}
use snowflake_trade_pipeline.Deploy.Texts.{append, strip, strip_left, strip_right, is_space}
use snowflake_trade_pipeline.Settings.{
  SnowflakeSettings, dbt_schema, is_given, is_key_file, or_default, is_prod, require_one_credential,
}
use snowflake_trade_pipeline.Settings.Casing.{upper, lower, map_chars, swapped}
use snowflake_trade_pipeline.Deploy.Context.{
  dbt_owned_schemas, build_context, schema_placeholders, getenv,
}
use snowflake_trade_pipeline.Deploy.Schemas.{dbt_schema-agrees}
use snowflake_trade_pipeline.Deploy.Substitute.{
  Piece, plain, slot, filled, slots, substitute, matches,
}
use snowflake_trade_pipeline.Deploy.Render.{
  render, is_small, value_of, is_unknown, is_blank_value, placeholder, name_between, spaced_by,
  named_by, closed_by, span, is_closing,
}
use snowflake_trade_pipeline.Deploy.Templates.{spaced, Slot, name_of}
use snowflake_trade_pipeline.Deploy.Filling.{AreDefined, render-filled}
use snowflake_trade_pipeline.Session.{
  Call, sends, opened, fetched, not_supported, Answer, answered, raised, Driver, Session,
  new_session,
}
use snowflake_trade_pipeline.Session.Sending.{statements}
use snowflake_trade_pipeline.Session.Kwargs.{
  Purpose, purpose, private_key, ConnectKwargs, connect_kwargs, credential_of, credential_from,
  non_empty, IsAuthenticated, connect_kwargs-IsAuthenticated,
}
use snowflake_trade_pipeline.SqlRunner.{run_all, exit_code_of}
use snowflake_trade_pipeline.SqlRunner.Attempts.{run_all-AreTried}
use snowflake_trade_pipeline.RunStatus.{Metadata, run_status}
use snowflake_trade_pipeline.RunStatus.Verdict.{LatestHasSucceeded, run_status-zero}

abbrev laptop : SnowflakeSettings
laptop = record {
  account = "ab12345";
  user = "loader";
  role = "TRANSFORMER";
  warehouse = "WH_DEV";
  database = "TRADES";
  schema_name = "RAW";
  load_warehouse = none;
  env = "dev";
  dbt_target_schema = "dbt_local";
  private_key_path = some "keys/rsa.p8";
  private_key_passphrase = none;
  password = none;
  query_tag_prefix = "project=trade-pipeline";
  login_timeout_seconds = 60;
  network_timeout_seconds = 300;
  max_retries = 3;
}

abbrev environ : Dict String String
environ = ("DBT_SCHEMA", "dbt_local") ∷ []

core_schema : dbt_schema laptop "core" ≡ "DBT_LOCAL_CORE"
unfolding dbt_schema is_prod lower upper map_chars swapped strip strip_left strip_right is_space
core_schema = refl

dbt_schema-agrees_example :
    All
      (λ layer.
        (lookup (build_context environ laptop laptop.env) (append layer "_schema")
          ≡ some (dbt_schema laptop layer))
        × (lookup (schema_placeholders environ) layer ≡ some (dbt_schema laptop layer)))
      dbt_owned_schemas
unfolding getenv lookup
dbt_schema-agrees_example = dbt_schema-agrees environ laptop refl refl

abbrev key_of : String → Option String → Result String
key_of path passphrase = ok "DER"

abbrev loading : Purpose
loading = record {
  settings = laptop;
  warehouse = "WH_LOAD";
  role = "TRANSFORMER";
  schema = "RAW";
  query_tag = "project=trade-pipeline|component=ingestion";
}

abbrev arguments : ConnectKwargs
arguments = record {
  account = "ab12345";
  user = "loader";
  role = "TRANSFORMER";
  warehouse = "WH_LOAD";
  database = "TRADES";
  schema = "RAW";
  login_timeout = 60;
  network_timeout = 300;
  query_tag = "project=trade-pipeline|component=ingestion";
  error_on_nondeterministic_merge = true;
  error_on_nondeterministic_update = true;
  timezone = "UTC";
  timestamp_type_mapping = "TIMESTAMP_LTZ";
  client_session_keep_alive = true;
  credential = private_key "DER";
}

purpose-loading : purpose laptop (some "WH_LOAD") none none "component=ingestion" ≡ loading
unfolding purpose or_default
purpose-loading = refl

connect_kwargs-IsAuthenticated_example : IsAuthenticated key_of laptop (private_key "DER")
unfolding require_one_credential is_given is_key_file strip strip_left strip_right is_space
    connect_kwargs credential_of credential_from non_empty
connect_kwargs-IsAuthenticated_example =
    connect_kwargs-IsAuthenticated key_of (λ path. true) loading arguments refl refl

-- `to {{ alert_email }}`
-- One placeholder with blanks of two kinds, and one without.
abbrev template : List (Piece Slot)
template =
    slot (record { before = ""; name = "alert_email"; behind = "" })
    ∷ plain ","
    ∷ slot (record { before = " \n"; name = "alert_email"; behind = " " })
    ∷ []

abbrev context : Dict String String
context = ("alert_email", "ops@example.com") ∷ []

rendered : render context "to {{alert_email  }}" ≡ ok "to ops@example.com"
unfolding render matches substitute placeholder name_between spaced_by named_by closed_by span
    is_small is_space is_closing value_of is_unknown is_blank_value keep lookup
rendered = refl

render-filled_example :
    (render context "{{alert_email}},{{ \nalert_email }}" ≡ ok "ops@example.com,ops@example.com")
    ↔ (AreDefined context (slots "{" name_of spaced template)
        × (filled "{" name_of spaced (value_of context) template
            ≡ "ops@example.com,ops@example.com"))
unfolding is_small is_space
render-filled_example =
    render-filled context template "ops@example.com,ops@example.com" (refl, (refl, (refl, tt)))

abbrev answers : List Call → Answer
answers (sends (sql, _) ∷ calls) =
    if sql == "select 1" then answered "q-1" (fetched []) [] else raised type_error
answers _ = answered "q" not_supported []

abbrev driver : Driver
driver = record { dial = λ calls. opened 1; is_closed = λ calls c. false; answer = answers }

abbrev online : Session
online = record new_session { connection = some 1 }

run_all-AreTried_example :
    (statements (run_all driver 3 ("drop x" ∷ "select 1" ∷ []) online).1.calls
      ≡ ("drop x", []) ∷ ("select 1", []) ∷ [])
    × (length (run_all driver 3 ("drop x" ∷ "select 1" ∷ []) online).0 ≡ 2)
    × ((exit_code_of (run_all driver 3 ("drop x" ∷ "select 1" ∷ []) online).0 ≡ 0)
        ↔ All (Returns (λ _. Unit)) (run_all driver 3 ("drop x" ∷ "select 1" ∷ []) online).0)
run_all-AreTried_example =
    run_all-AreTried driver 3 1 (λ calls. refl) ("drop x" ∷ "select 1" ∷ []) online refl

abbrev metadata : Metadata
metadata = record {
  is_registered = true;
  runs =
      record {
        run_id = "manual__1";
        state = some "success";
        instances =
            record {
              task_id = "preflight";
              state = some "success";
              start_date = some 20;
              end_date = some 30;
              try_number = 1;
            }
            ∷ record {
              task_id = "simulate_arrivals";
              state = some "skipped";
              start_date = none;
              end_date = none;
              try_number = 1;
            }
            ∷ [];
      }
      ∷ [];
  execution_order = [];
}

run_status-zero_example :
    (run_status true metadata ≡ 0)
    ↔ ((true ≡ true) × (metadata.is_registered ≡ true) × LatestHasSucceeded metadata.runs)
run_status-zero_example = run_status-zero true metadata
