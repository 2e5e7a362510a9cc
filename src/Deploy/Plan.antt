-- ===== src/Deploy/Plan.antt =====
-- `main` of scripts/deploy_snowflake_sql.py up to the loop: every file is rendered and split before
-- any statement is sent.
use snowflake_trade_pipeline.Prelude.{ℕ, String, Bool, Option, List, [], ◌∷◌, ◌++◌, if◌then◌else◌}
use snowflake_trade_pipeline.Prelude.Dict.{Dict}
use snowflake_trade_pipeline.Result.{Result, ok, err}
use snowflake_trade_pipeline.Settings.{SnowflakeSettings}
use snowflake_trade_pipeline.Deploy.{Statement, split_statements}
use snowflake_trade_pipeline.Deploy.Apply.{deploy, exit_code, not_started}
use snowflake_trade_pipeline.Deploy.Context.{build_context}
use snowflake_trade_pipeline.Deploy.Phases.{SqlFile, discover}
use snowflake_trade_pipeline.Deploy.Render.{render}

-- The statements of all files in their order, or the error of the first that does not render.
unfoldable pub plan_of :
    Dict String String → (SqlFile → String) → List SqlFile → Result (List Statement)
unfolding render split_statements
plan_of context read_text [] = ok []
plan_of context read_text (f ∷ fs) = elim (render context (read_text f)) [
  | err e ↦ err e
  | ok rendered ↦ elim (plan_of context read_text fs) [
    | err e ↦ err e
    | ok rest ↦ ok (split_statements rendered ++ rest)
  ]
]

module _ (environ : Dict String String) (settings : SnowflakeSettings) (is_dir : Bool)
    (directories : List String) (files_below : String → List SqlFile) (read_text : SqlFile → String)
    (accepts : List Statement → Statement → Bool) where
  -- The exit code, and the statements that were sent. A connection is opened only behind the plan.
  unfoldable pub deploy_main :
      String → String → Option String → Bool → Bool → Result (ℕ × List Statement)
  unfolding discover build_context plan_of deploy exit_code
  deploy_main env phase only dry_run continue_on_error =
      elim (discover files_below is_dir directories only phase) [
        | err e ↦ err e
        | ok files ↦ elim (plan_of (build_context environ settings env) read_text files) [
          | err e ↦ err e
          | ok plan ↦
              if dry_run
              then ok (0, [])
              else (let d = deploy accepts continue_on_error plan not_started in
                  ok (exit_code d, d.sent))
        ]
      ]
