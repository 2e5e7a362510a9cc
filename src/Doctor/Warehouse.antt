-- ===== src/Doctor/Warehouse.antt =====
-- The checks of scripts/doctor.py that open a session. Their world is the calls made before, and the
-- text of an exception is left out of a result.
use snowflake_trade_pipeline.Prelude.{
  is_empty, ℕ, String, Bool, true, false, not, Option, none, some, List, [], ◌∷◌, map, length,
  if◌then◌else◌, ◌==◌, nat_eq, string_eq, contains, keep,
}
use snowflake_trade_pipeline.Prelude.Dict.{Dict, lookup}
use snowflake_trade_pipeline.Result.{key_error, Result, ok, err, ◌>>=◌}
use snowflake_trade_pipeline.Deploy.Texts.{append}
use snowflake_trade_pipeline.Deploy.Phases.{starts_with}
use snowflake_trade_pipeline.Deploy.Context.{schema_prefix}
use snowflake_trade_pipeline.Settings.Casing.{upper}
use snowflake_trade_pipeline.SqlRunner.Table.{join}
use snowflake_trade_pipeline.Session.{Value, text, Call, ResultRow, Driver, execute}
use snowflake_trade_pipeline.Gates.Ingest.{with_session}
use snowflake_trade_pipeline.Doctor.{
  status_ok, status_warn, status_fail, status_skip, CheckResult, found,
}
use snowflake_trade_pipeline.Doctor.Probes.{str}

unfoldable pub is_red : ResultRow → String → Bool
unfolding lookup
is_red row column = elim (lookup row column) [
  | some v ↦ elim v [ text s ↦ s == "RED" | _ ↦ false ]
  | none ↦ false
]

abbrev pub stages : List (String × String)
stages =
    ("ingestion", "INGESTION_STATUS")
    ∷ ("capture", "CAPTURE_STATUS")
    ∷ ("transform", "TRANSFORM_STATUS")
    ∷ ("correctness", "CORRECTNESS_STATUS")
    ∷ []

-- `str` of a value, or of its absence, is an argument.
unfoldable pub health_of : (Option Value → String) → Result (List ResultRow) → CheckResult
unfolding is_red keep lookup join
health_of shown (err e) = found status_skip "SLA view not readable yet"
health_of shown (ok []) = found status_skip "SLA view returned no rows"
health_of shown (ok (row ∷ rows)) =
    let summary =
      join "  " (map (λ stage. append stage.0 (append "=" (shown (lookup row stage.1)))) stages) in
    if is_empty (keep (λ stage. is_red row stage.1) stages)
    then found status_ok summary
    else found status_warn summary

-- The objects that are expected, for the prefix of dbt's schemas.
unfoldable pub expected_objects : String → List String
expected_objects dbt =
    "RAW.TRADE_EVENT"
    ∷ "RAW.TRADE_EVENT_QUEUE"
    ∷ "RAW.LOAD_BATCH"
    ∷ "RAW.COPY_ERROR"
    ∷ append dbt "CORE.FCT_TRADE"
    ∷ append dbt "CORE.FCT_TRADE_VERSION"
    ∷ append dbt "AUDIT.FCT_TRADE_REJECTED"
    ∷ "MONITORING.VW_PIPELINE_SLA"
    ∷ append dbt "REPORTING.RPT_DATA_QUALITY_SCORECARD"
    ∷ []

-- A missing raw object fails, and a missing one of another layer warns.
unfoldable pub objects_of : String → List String → CheckResult
unfolding keep contains expected_objects starts_with join
objects_of dbt present =
    let expected = expected_objects dbt in
    let absent = keep (λ name. not (contains present name)) expected in
    let notes =
      map (λ name. append (if contains present name then "present  " else "MISSING  ") name)
        expected in
    if is_empty absent
    then record { status = status_ok; detail = "all 9 expected objects present"; notes = notes }
    else record {
      status =
          if is_empty (keep (λ name. starts_with "RAW." name) absent)
          then status_warn
          else status_fail;
      detail = append (str (length absent)) " of 9 objects not deployed";
      notes = notes;
    }

-- `{str(row["OBJECT_NAME"]).upper() for row in rows}`
unfoldable pub present_objects : (Option Value → String) → List ResultRow → Result (List String)
unfolding lookup upper
present_objects shown [] = ok []
present_objects shown (row ∷ rows) = elim (lookup row "OBJECT_NAME") [
  | none ↦ err key_error
  | some v ↦ do names ← present_objects shown rows; ok (upper (shown (some v)) ∷ names)
]

-- The six values of the row; a column that is missing raises outside the `try`.
unfoldable pub connection_notes :
    (Option Value → String) → ResultRow → List (String × String) → Result (List String)
unfolding lookup
connection_notes shown row [] = ok []
connection_notes shown row ((label, column) ∷ more) = elim (lookup row column) [
  | none ↦ err key_error
  | some v ↦ do notes ← connection_notes shown row more; ok (append label (shown (some v)) ∷ notes)
]

abbrev pub connection_columns : List (String × String)
connection_columns =
    ("account   ", "ACCOUNT")
    ∷ ("user      ", "USER")
    ∷ ("role      ", "ROLE")
    ∷ ("warehouse ", "WAREHOUSE")
    ∷ ("database  ", "DATABASE")
    ∷ ("version   ", "VERSION")
    ∷ []

unfoldable pub connection_of :
    (Option Value → String) → Result (List ResultRow) → Result CheckResult
unfolding connection_notes
connection_of shown (err e) = ok (found status_fail "connection failed")
connection_of shown (ok []) = ok (found status_fail "connection failed")
connection_of shown (ok (row ∷ rows)) = do
  notes ← connection_notes shown row connection_columns
  ok record { status = status_ok; detail = "connected"; notes = notes }

abbrev connection_sql : String
connection_sql =
    "select current_account() as account, current_user() as user, current_role() as role, current_warehouse() as warehouse, current_database() as database, current_version() as version"

abbrev objects_sql : String → String
objects_sql database =
    append
      "\n            select table_schema || '.' || table_name as object_name\n            from "
      (append database (
        append
          ".information_schema.tables\n            union all\n            select table_schema || '.' || table_name\n            from "
          (append database ".information_schema.views\n            ")))

module _ (driver : Driver) (max_retries : ℕ) (shown : Option Value → String) where
  unfoldable pub check_snowflake_connection : List Call → Result CheckResult × List Call
  unfolding with_session execute connection_of
  check_snowflake_connection calls =
      let out =
        with_session driver max_retries (execute driver max_retries connection_sql []) calls in
      (connection_of shown out.0, out.1)

  -- The environment is `os.environ`.
  unfoldable pub check_snowflake_objects :
      Dict String String → String → List Call → Result CheckResult × List Call
  unfolding with_session execute present_objects objects_of schema_prefix
  check_snowflake_objects environ database calls =
      let out =
        with_session driver max_retries (execute driver max_retries (objects_sql database) [])
          calls in
      (
        out.0
            >>= present_objects shown
            >>= (λ present. ok (objects_of (schema_prefix environ) present)),
        out.1,
      )

  unfoldable pub check_pipeline_health : String → List Call → Result CheckResult × List Call
  unfolding with_session execute health_of
  check_pipeline_health database calls =
      let out =
        with_session driver max_retries
          (execute driver max_retries
            (append "select * from " (append database ".monitoring.vw_pipeline_sla")) [])
          calls in
      (ok (health_of shown out.0), out.1)

unfoldable pub warehouses_of : List (String × Bool) → CheckResult
unfolding keep
warehouses_of tried =
    let unusable = keep (λ p. not p.1) tried in
    if is_empty unusable
    then record {
      status = status_ok;
      detail = append (str (length tried)) " warehouse(s) usable";
      notes = map (λ p. append p.0 ": usable") tried;
    }
    else found status_fail (append (str (length unusable)) " warehouse(s) unusable")

-- Each warehouse that is wanted, with whether a session on it answers `select 1`. The driver is that
-- of the warehouse.
module _ (driver : String → Driver) (max_retries : ℕ) where
  unfoldable pub exercise : List String → List Call → List (String × Bool) × List Call
  unfolding with_session execute
  exercise [] calls = ([], calls)
  exercise (w ∷ ws) calls =
      let out =
        with_session (driver w) max_retries (execute (driver w) max_retries "select 1" []) calls in
      let rest = exercise ws out.1 in
      ((w, (elim out.0 as (λ _. Bool) [ ok rows ↦ true | err e ↦ false ])) ∷ rest.0, rest.1)

  -- The warehouses that are wanted, sorted and each once.
  unfoldable pub check_warehouses : List String → List Call → Result CheckResult × List Call
  unfolding exercise warehouses_of
  check_warehouses wanted calls =
      let out = exercise wanted calls in (ok (warehouses_of out.0), out.1)
