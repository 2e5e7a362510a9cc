-- ===== src/Deploy/Schemas.antt =====
-- The three places that resolve the name of one of dbt's layers: `dbt_schema` of
-- ingestion/src/trade_sim/config.py, `build_context` of scripts/deploy_snowflake_sql.py, and
-- `schema_placeholders` of scripts/run_sql.py.
use snowflake_trade_pipeline.Prelude.{
  String, ◌≡◌, refl, sym, ap, ◌∙◌, Bool, true, false, some, All, string_eq, if◌then◌else◌,
}
use snowflake_trade_pipeline.Prelude.Dict.{Dict, lookup}
use snowflake_trade_pipeline.Deploy.Texts.{append, append_assoc, strip}
use snowflake_trade_pipeline.Deploy.Context.{
  getenv, dbt_owned_schemas, schema_entry, build_context, schema_prefix, schema_placeholders,
}
use snowflake_trade_pipeline.Settings.{SnowflakeSettings, is_prod, dbt_schema}
use snowflake_trade_pipeline.Settings.Casing.{upper}

prefix_joined :
    (bare : Bool) (schema name : String)
    → append (if bare then "" else append schema "_") name
      ≡ (if bare then name else append schema (append "_" name))
prefix_joined true schema name = refl
prefix_joined false schema name = append_assoc schema "_" name

-- The name of a layer, by the environment and dbt's own schema.
abbrev resolved : String → String → String → String
resolved env schema layer =
    if is_prod env then upper layer else append (upper (strip schema)) (append "_" (upper layer))

module _ (environ : Dict String String) (settings : SnowflakeSettings) where
  abbrev target : String
  target = getenv environ "DBT_SCHEMA" "DBT_LOCAL"

  entry_agrees :
      (layer : String)
      → settings.dbt_target_schema ≡ target
      → (schema_entry (is_prod settings.env) (upper (strip target)) layer).1
        ≡ dbt_schema settings layer
  unfolding schema_entry dbt_schema
  entry_agrees layer t = ap (λ x. resolved settings.env x layer) (sym t)

  prefix_agrees :
      (layer : String)
      → settings.env ≡ getenv environ "SNOWFLAKE_ENV" "dev"
      → settings.dbt_target_schema ≡ target
      → append (schema_prefix environ) (upper layer) ≡ dbt_schema settings layer
  unfolding schema_prefix dbt_schema
  prefix_agrees layer e t =
      let env = getenv environ "SNOWFLAKE_ENV" "dev" in
      prefix_joined (is_prod env) (upper (strip target)) (upper layer)
      ∙ ap (λ x. resolved env x layer) (sym t)
      ∙ ap (λ x. resolved x settings.dbt_target_schema layer) (sym e)

  both_agree :
      (layer : String)
      → settings.env ≡ getenv environ "SNOWFLAKE_ENV" "dev"
      → settings.dbt_target_schema ≡ target
      → (some (schema_entry (is_prod settings.env) (upper (strip target)) layer).1
          ≡ some (dbt_schema settings layer))
        × (some (append (schema_prefix environ) (upper layer)) ≡ some (dbt_schema settings layer))
  both_agree layer e t = (ap some (entry_agrees layer t), ap some (prefix_agrees layer e t))

  -- If the settings come from the environment, then for each of dbt's layers the deployment's
  -- context, the SQL runner's placeholders and the settings name the same schema, where the
  -- deployment is to the environment of the settings.
  pub dbt_schema-agrees :
      settings.env ≡ getenv environ "SNOWFLAKE_ENV" "dev"
      → settings.dbt_target_schema ≡ getenv environ "DBT_SCHEMA" "DBT_LOCAL"
      → All
          (λ layer.
            (lookup (build_context environ settings settings.env) (append layer "_schema")
              ≡ some (dbt_schema settings layer))
            × (lookup (schema_placeholders environ) layer ≡ some (dbt_schema settings layer)))
          dbt_owned_schemas
  unfolding build_context schema_placeholders lookup
  dbt_schema-agrees e t = (
    both_agree "staging" e t,
    (
      both_agree "intermediate" e t,
      (
        both_agree "core" e t,
        (both_agree "reporting" e t, (both_agree "audit" e t, (both_agree "snapshots" e t, tt))),
      ),
    ),
  )
