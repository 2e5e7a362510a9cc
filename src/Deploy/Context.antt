-- ===== src/Deploy/Context.antt =====
-- `build_context` of scripts/deploy_snowflake_sql.py, and `schema_placeholders` of
-- scripts/run_sql.py: the names that the SQL refers to, by the environment.
use snowflake_trade_pipeline.Prelude.{
  String, Bool, none, some, List, [], ◌∷◌, map, if◌then◌else◌, string_eq,
}
use snowflake_trade_pipeline.Prelude.Dict.{Dict, lookup}
use snowflake_trade_pipeline.Deploy.Texts.{append, strip}
use snowflake_trade_pipeline.Settings.{SnowflakeSettings, effective_load_warehouse, is_prod}
use snowflake_trade_pipeline.Settings.Casing.{upper}

-- `os.environ.get(name, default)`
unfoldable pub getenv : Dict String String → String → String → String
unfolding lookup
getenv environ name default = elim (lookup environ name) [ none ↦ default | some v ↦ v ]

abbrev pub dbt_owned_schemas : List String
dbt_owned_schemas = "staging" ∷ "intermediate" ∷ "core" ∷ "reporting" ∷ "audit" ∷ "snapshots" ∷ []

-- An entry of the context for one of dbt's layers.
unfoldable pub schema_entry : Bool → String → String → String × String
unfolding upper
schema_entry bare_schemas schema layer = (
  append layer "_schema",
  if bare_schemas then upper layer else append schema (append "_" (upper layer)),
)

unfoldable pub build_context : Dict String String → SnowflakeSettings → String → Dict String String
unfolding getenv schema_entry is_prod upper strip effective_load_warehouse
build_context environ settings env =
    ("env", env)
    ∷ ("database", settings.database)
    ∷ ("load_warehouse", effective_load_warehouse settings)
    ∷ ("transform_role", settings.role)
    ∷ (
      "notification_integration",
      getenv environ "SNOWFLAKE_NOTIFICATION_INTEGRATION" "NI_TRADE_PIPELINE_EMAIL",
    )
    ∷ ("alert_email", getenv environ "ALERT_EMAIL" "")
    ∷ ("daily_credit_budget", getenv environ "SNOWFLAKE_DAILY_CREDIT_BUDGET" "5")
    ∷ map (schema_entry (is_prod env) (upper (strip (getenv environ "DBT_SCHEMA" "DBT_LOCAL"))))
        dbt_owned_schemas

-- What stands before the name of a layer.
unfoldable pub schema_prefix : Dict String String → String
unfolding getenv is_prod upper strip
schema_prefix environ =
    if is_prod (getenv environ "SNOWFLAKE_ENV" "dev")
    then ""
    else append (upper (strip (getenv environ "DBT_SCHEMA" "DBT_LOCAL"))) "_"

unfoldable pub schema_placeholders : Dict String String → Dict String String
unfolding schema_prefix upper
schema_placeholders environ =
    let prefix = schema_prefix environ in
    map (λ schema. (schema, append prefix (upper schema))) dbt_owned_schemas
