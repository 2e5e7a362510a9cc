-- ===== src/Gates/Preflight.antt =====
-- The task preflight of airflow/dags/trade_pipeline.py; `int` of a text is a parameter.
use snowflake_trade_pipeline.Prelude.{
  ℕ, String, not, none, some, List, [], ◌∷◌, string_eq, contains, keep,
}
use snowflake_trade_pipeline.Result.{key_error, airflow_fail, Result, ok, err, ◌>>=◌}
use snowflake_trade_pipeline.Prelude.Dict.{lookup}
use snowflake_trade_pipeline.Deploy.Texts.{append}
use snowflake_trade_pipeline.Session.{
  Value, text, Call, ResultRow, Driver, Action, continue, return, execute, scalar,
}
use snowflake_trade_pipeline.Gates.Ingest.{int_or_zero, with_session}

abbrev pub required_objects : List String
required_objects =
    "RAW.TRADE_EVENT" ∷ "RAW.TRADE_EVENT_QUEUE" ∷ "RAW.LOAD_BATCH" ∷ "RAW.COPY_ERROR" ∷ []

-- `{row["OBJECT_NAME"] for row in found}`, of the texts.
unfoldable pub object_names : List ResultRow → Result (List String)
unfolding lookup
object_names [] = ok []
object_names (row ∷ rows) = elim (lookup row "OBJECT_NAME") [
  | none ↦ err key_error
  | some v ↦ elim (object_names rows) [
    | err e ↦ err e
    | ok names ↦ ok (elim v as (λ _. List String) [ text name ↦ name ∷ names | _ ↦ names ])
  ]
]

unfoldable pub missing_objects : List String → List String
unfolding keep contains
missing_objects existing = keep (λ name. not (contains existing name)) required_objects

abbrev tables_sql : String → String
tables_sql database =
    append
      "\n                select table_schema || '.' || table_name as object_name\n                from "
      (append database
        ".information_schema.tables\n                where table_schema = 'RAW'\n                ")

pub record Preflight : Type 0 where
  pub snowflake_version : Value
  pub database : String
  pub queue_depth_at_start : ℕ

module _ (int : String → Result ℕ) where
  -- What `preflight` returns of the version and the depth of the queue that it has read.
  unfoldable pub preflight_report : String → Value × Value → Result Preflight
  unfolding int_or_zero
  preflight_report database (version, lag) = do
    depth ← int_or_zero int (some lag)
    ok record { snowflake_version = version; database = database; queue_depth_at_start = depth }

module _ (driver : Driver) (max_retries : ℕ) where
  -- `select 1`, and then the depth of the queue.
  unfoldable pub queue_depth : String → Action Value
  unfolding execute scalar
  queue_depth database s = continue (execute driver max_retries "select 1" [] s) λ _ t.
      scalar driver max_retries
        (append "select count(*) from " (append database ".raw.trade_event_queue")) [] t

  -- What follows the answer on the tables of the raw schema.
  unfoldable pub check_objects : String → List ResultRow → Action Value
  unfolding queue_depth object_names missing_objects
  check_objects database found = elim (object_names found) [
    | err e ↦ return (err e)
    | ok existing ↦ elim (missing_objects existing) [
      | [] ↦ queue_depth database
      | name ∷ names ↦ return (err airflow_fail)
    ]
  ]

  -- The statements of `preflight`: the version, and the depth of the queue.
  unfoldable pub survey : String → Action (Value × Value)
  unfolding scalar execute check_objects
  survey database s =
      continue (scalar driver max_retries "select current_version()" [] s) λ version t.
        continue (execute driver max_retries (tables_sql database) [] t)
          λ found u. continue (check_objects database found u) λ lag. return (ok (version, lag))

  unfoldable pub preflight : (String → Result ℕ) → String → List Call → Result Preflight × List Call
  unfolding with_session survey preflight_report
  preflight int database calls =
      let out = with_session driver max_retries (survey database) calls in
      (out.0 >>= preflight_report int database, out.1)
