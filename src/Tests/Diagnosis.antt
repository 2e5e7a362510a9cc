-- ===== src/Tests/Diagnosis.antt =====
-- A run of scripts/doctor.py in which the credentials cannot be used: the theorem on Doctor at it.
use snowflake_trade_pipeline.Prelude.{
  true, string_eq, ℕ, suc, ◌≡◌, refl, ◌⊎◌, [], ◌∷◌, if◌then◌else◌, ◌==◌, nat_eq,
}
use snowflake_trade_pipeline.Result.{Result, ok}
use snowflake_trade_pipeline.Doctor.{
  status_ok, status_fail, CheckResult, found, Checks, later_lines, main, check, outcome, counted,
  has_failed, is_failed, run_lines, block_if_failed, block, exit_code,
}
use snowflake_trade_pipeline.Doctor.Configuration.{
  check_dbt, scan_lines, scan_line, with_version, ends_in_colon, strip_colons, strip_bullet,
  partition,
}
use snowflake_trade_pipeline.Prelude.Dict.{lookup, insert}
use snowflake_trade_pipeline.Deploy.Texts.{strip, strip_left, strip_right, is_space}
use snowflake_trade_pipeline.Deploy.Phases.{starts_with, occurs}
use snowflake_trade_pipeline.Settings.Casing.{lower, map_chars, swapped}
use snowflake_trade_pipeline.Doctor.Report.{failures, names, names_after, main-IsDiagnosed}

-- The world counts the checks that were made.
abbrev passing : ℕ → Result CheckResult × ℕ
passing n = (ok (found status_ok "fine"), suc n)

abbrev failing : ℕ → Result CheckResult × ℕ
failing n = (ok (found status_fail "no credentials configured"), suc n)

abbrev setup : Checks ℕ
setup = record {
  check_python = passing;
  check_filesystem = passing;
  check_venv = passing;
  check_python_packages = passing;
  check_dbt = passing;
  check_optional_tools = passing;
  check_env_file = passing;
  check_dbt_profile = passing;
  check_dbt_packages = passing;
  check_repo_layout = passing;
  check_private_key = failing;
  check_dns = passing;
  check_snowflake_connection = passing;
  check_warehouses = passing;
  check_snowflake_objects = passing;
  check_pipeline_health = passing;
}

-- Behind the version that is installed dbt prints the latest one, which is reported.
dbt_found :
    check_dbt true (
      ok (
        "Core:" ∷ "  - installed: 1.9.4" ∷ "  - latest:    1.10.2 - Update available!" ∷ "Plugins:"
        ∷ "  - snowflake: 1.9.2" ∷ []))
    ≡ found status_ok "dbt-core 1.10.2 - Update available!, dbt-snowflake 1.9.2"
unfolding check_dbt scan_lines scan_line with_version lookup insert strip strip_left strip_right
    is_space ends_in_colon strip_colons strip_bullet partition starts_with occurs lower map_chars
    swapped
dbt_found = refl

-- Eleven of the sixteen checks are made, and one of them fails.
setup_diagnosed : ((main setup 0).0 ≡ 1) × ((main setup 0).1.1 ≡ 11)
unfolding main check outcome counted has_failed is_failed run_lines block_if_failed block exit_code
setup_diagnosed = (refl, refl)

main-IsDiagnosed_example :
    ((main setup 0).0 ≡ (if failures (main setup 0).1.0.printed == 0 then 0 else 1))
    × ((names (main setup 0).1.0.printed ≡ "python version" ∷ []) × ((main setup 0).0 ≡ 1)
        ⊎ (names (main setup 0).1.0.printed
            ≡ names_after (later_lines setup) ("python version" ∷ [])))
main-IsDiagnosed_example = main-IsDiagnosed setup 0
