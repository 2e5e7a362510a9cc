-- ===== src/Settings.antt =====
-- ingestion/src/trade_sim/config.py: the settings with their validators, and the schemas that dbt
-- writes to. Reading the environment into a record is pydantic's work.
pub mod Casing
use snowflake_trade_pipeline.Prelude.{
  ℕ, ◌+◌, ◌≡◌, String, Bool, true, false, not, ◌&&◌, ◌||◌, Option, none, some, ltb, if◌then◌else◌,
  ◌==◌, string_eq,
}
use snowflake_trade_pipeline.Result.{Error, value_error, Result, ok, err}
use snowflake_trade_pipeline.Deploy.Texts.{append, strip}
use Casing.{upper, lower}

-- A path is known by its text.
pub record SnowflakeSettings : Type 0 where
  pub account : String
  pub user : String
  pub role : String
  pub warehouse : String
  pub database : String
  pub schema_name : String
  pub load_warehouse : Option String
  pub env : String
  pub dbt_target_schema : String
  pub private_key_path : Option String
  pub private_key_passphrase : Option String
  pub password : Option String
  pub query_tag_prefix : String
  pub login_timeout_seconds : ℕ
  pub network_timeout_seconds : ℕ
  pub max_retries : ℕ

-- `s is not None and s.strip() != ""`
unfoldable pub is_given : Option String → Bool
unfolding strip
is_given none = false
is_given (some s) = not (strip s == "")

-- `s or default`
unfoldable pub or_default : Option String → String → String
or_default none default = default
or_default (some s) default = if s == "" then default else s

-- `Path(self.private_key_path or "").expanduser().is_file()`
unfoldable pub is_key_file : (String → Bool) → Option String → Bool
is_key_file is_file none = is_file ""
is_key_file is_file (some path) = is_file path

-- `is_file` says of a path whether a file stands there.
unfoldable pub require_one_credential :
    (String → Bool) → SnowflakeSettings → Result SnowflakeSettings
unfolding is_given is_key_file
require_one_credential is_file s =
    let has_key = is_given s.private_key_path in
    let has_password = is_given s.password in
    if not has_key && not has_password
    then err value_error
    else if has_key && not (is_key_file is_file s.private_key_path)
    then err value_error
    else ok s

unfoldable pub effective_load_warehouse : SnowflakeSettings → String
unfolding or_default
effective_load_warehouse s = or_default s.load_warehouse s.warehouse

-- `env.strip().lower() in ("prod", "production")`
unfoldable pub is_prod : String → Bool
unfolding strip lower
is_prod env = let name = lower (strip env) in name == "prod" || name == "production"

unfoldable pub dbt_schema : SnowflakeSettings → String → String
unfolding is_prod upper strip
dbt_schema s layer =
    if is_prod s.env
    then upper layer
    else append (upper (strip s.dbt_target_schema)) (append "_" (upper layer))

-- The rates that are added up, in millionths.
unfoldable pub rates_are_coherent : ℕ → ℕ → Result (Unit {0})
rates_are_coherent replace_rate stale_version_rate =
    if ltb (replace_rate + stale_version_rate) 1000000 then ok tt else err value_error
