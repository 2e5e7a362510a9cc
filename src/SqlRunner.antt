-- ===== src/SqlRunner.antt =====
-- scripts/run_sql.py: the statements that are read, and the loop that sends them. The environment,
-- the file system and standard input are arguments.
pub mod Presets
pub mod Table
pub mod Aligned
pub mod Attempts
use snowflake_trade_pipeline.Prelude.{
  ℕ, zero, String, Bool, true, false, not, ◌&&◌, ◌||◌, Option, none, some, List, [], ◌∷◌, map,
  if◌then◌else◌, ◌==◌, string_eq,
}
use snowflake_trade_pipeline.Prelude.Dict.{Dict}
use snowflake_trade_pipeline.Result.{Error, key_error, system_exit, Result, ok, err}
use snowflake_trade_pipeline.Settings.{SnowflakeSettings}
use snowflake_trade_pipeline.Deploy.{split_statements}
use snowflake_trade_pipeline.Deploy.Texts.{strip}
use snowflake_trade_pipeline.Deploy.Context.{getenv, build_context}
use snowflake_trade_pipeline.Deploy.Render.{has_chars, render, apply_placeholders}
use snowflake_trade_pipeline.Session.{ResultRow, Driver, Session, Action, connect, close, execute}
use Presets.{Preset, presets}

pub record Args : Type 0 where
  pub sql : Option String
  pub file : Option String
  pub preset : Option String

-- Python's truth of an optional text
unfoldable pub is_true : Option String → Bool
is_true none = false
is_true (some s) = has_chars s

-- `PRESETS[name]`
unfoldable pub preset_sql : List Preset → String → Result String
preset_sql [] name = err key_error
preset_sql (p ∷ ps) name = elim (p.name == name) [ true ↦ ok p.sql | false ↦ preset_sql ps name ]

unfoldable pub exit_code_of : List (Result (List ResultRow)) → ℕ
exit_code_of [] = 0
exit_code_of (err e ∷ rs) = 1
exit_code_of (ok rows ∷ rs) = exit_code_of rs

module _ (driver : Driver) (max_retries : ℕ) where
  -- Each statement is tried, whatever became of those before it.
  unfoldable pub run_all : List String → Session → List (Result (List ResultRow)) × Session
  unfolding execute
  run_all [] s = ([], s)
  run_all (q ∷ qs) s =
      let one = execute driver max_retries q [] s in
      let rest = run_all qs one.1 in (one.0 ∷ rest.0, rest.1)

module _ (environ : Dict String String) (settings : SnowflakeSettings)
    (read_text : String → Option String) (stdin : String) where
  -- The statements of a file, which is split as a deployment splits it.
  unfoldable pub file_statements : String → Result (List String)
  unfolding getenv build_context render split_statements
  file_statements path = elim (read_text path) [
    | none ↦ err system_exit
    | some text ↦
        elim (render (build_context environ settings (getenv environ "DBT_TARGET" "dev")) text) [
          | err e ↦ err e
          | ok rendered ↦ ok (map (λ s. s.sql) (split_statements rendered))
        ]
  ]

  unfoldable pub sql_statements : Option String → Result (List String)
  unfolding apply_placeholders strip
  sql_statements none = ok []
  sql_statements (some sql) =
      if sql == "-"
      then ok (apply_placeholders environ settings.database (strip stdin) ∷ [])
      else ok (apply_placeholders environ settings.database sql ∷ [])

  unfoldable pub preset_statements : String → Result (List String)
  unfolding preset_sql apply_placeholders strip
  preset_statements name = elim (preset_sql presets name) [
    | err e ↦ err e
    | ok sql ↦ ok (strip (apply_placeholders environ settings.database sql) ∷ [])
  ]

  unfoldable pub read_statements : Args → Result (List String)
  unfolding is_true file_statements sql_statements preset_statements
  read_statements args = elim (args.preset) [
    | some name ↦ if has_chars name then preset_statements name else elim (args.file) [
      | some path ↦ if has_chars path then file_statements path else sql_statements args.sql
      | none ↦ sql_statements args.sql
    ]
    | none ↦ elim (args.file) [
      | some path ↦ if has_chars path then file_statements path else sql_statements args.sql
      | none ↦ sql_statements args.sql
    ]
  ]

  module _ (driver : Driver) (max_retries : ℕ) where
    unfoldable pub sql_main : Args → Action ℕ
    unfolding read_statements is_true connect close run_all exit_code_of
    sql_main args s =
        if not (is_true args.sql || is_true args.file || is_true args.preset)
        then (ok 2, s)
        else elim (read_statements args) [
          | err e ↦ (err e, s)
          | ok qs ↦
              let (connected, t) = connect driver max_retries s in
              elim connected [
                | err e ↦ (err e, t)
                | ok c ↦
                    let run = run_all driver max_retries qs t in
                    (ok (exit_code_of run.0), close driver max_retries run.1)
              ]
        ]
