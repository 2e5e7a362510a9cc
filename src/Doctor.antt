-- ===== src/Doctor.antt =====
-- scripts/doctor.py: the checks in their order, what blocks the later ones, and the exit code. What
-- a check looks at, and may change, is the world; the texts on how to fix a failure are left out.
pub mod Configuration
pub mod Probes
pub mod Warehouse
pub mod Report
use snowflake_trade_pipeline.Prelude.{
  ℕ, zero, ◌+◌, String, Bool, true, false, Option, none, some, List, [], ◌∷◌, ◌++◌, if◌then◌else◌,
  ◌==◌, nat_eq, string_eq,
}
use snowflake_trade_pipeline.Result.{Error, Result, ok, err}
use snowflake_trade_pipeline.Deploy.Texts.{append}

pub data Status : Type 0 where
  status_ok status_warn status_fail status_skip : Status

-- `Result` of the script, without its fix.
pub record CheckResult : Type 0 where
  pub status : Status
  pub detail : String
  pub notes : List String

abbrev pub found : Status → String → CheckResult
found status detail = record { status = status; detail = detail; notes = [] }

-- A check that raises has failed.
unfoldable pub outcome : Result CheckResult → CheckResult
outcome (ok r) = r
outcome (err e) = found status_fail "the check itself raised"

-- The results that were printed, latest first, each with the name of its check.
pub record Doctor : Type 0 where
  pub failed : ℕ
  pub warned : ℕ
  pub blocked_reason : Option String
  pub printed : List (String × CheckResult)

abbrev pub new_doctor : Doctor
new_doctor = record { failed = 0; warned = 0; blocked_reason = none; printed = [] }

unfoldable pub counted : String → CheckResult → Doctor → Doctor
counted name r d = elim r.status [
  | status_fail ↦ record d { failed = d.failed + 1; printed = (name, r) ∷ d.printed }
  | status_warn ↦ record d { warned = d.warned + 1; printed = (name, r) ∷ d.printed }
  | status_ok ↦ record d { printed = (name, r) ∷ d.printed }
  | status_skip ↦ record d { printed = (name, r) ∷ d.printed }
]

-- `result.status is Status.FAIL`
unfoldable pub is_failed : CheckResult → Bool
is_failed r = elim r.status [ status_fail ↦ true | _ ↦ false ]

-- Whether the result printed for a check is a failure.
unfoldable pub has_failed : List (String × CheckResult) → String → Bool
unfolding is_failed
has_failed [] name = false
has_failed ((n, r) ∷ rs) name =
    let rest = has_failed rs name in if n == name then is_failed r else rest

unfoldable pub block : String → Doctor → Doctor
block reason d = record d { blocked_reason = some reason }

-- A line of `main`: a check, or a block if the check of that name has failed.
pub data Line (W : Type 0) : Type 0 where
  checks : String → (W → Result CheckResult × W) → Line W
  blocks : String → String → Line W

-- The checks by their names in the script.
pub record Checks (W : Type 0) : Type 0 where
  pub check_python : W → Result CheckResult × W
  pub check_filesystem : W → Result CheckResult × W
  pub check_venv : W → Result CheckResult × W
  pub check_python_packages : W → Result CheckResult × W
  pub check_dbt : W → Result CheckResult × W
  pub check_optional_tools : W → Result CheckResult × W
  pub check_env_file : W → Result CheckResult × W
  pub check_dbt_profile : W → Result CheckResult × W
  pub check_dbt_packages : W → Result CheckResult × W
  pub check_repo_layout : W → Result CheckResult × W
  pub check_private_key : W → Result CheckResult × W
  pub check_dns : W → Result CheckResult × W
  pub check_snowflake_connection : W → Result CheckResult × W
  pub check_warehouses : W → Result CheckResult × W
  pub check_snowflake_objects : W → Result CheckResult × W
  pub check_pipeline_health : W → Result CheckResult × W

unfoldable pub exit_code : Doctor → ℕ
exit_code d = if d.failed == 0 then 0 else 1

module _ {W : Type 0} where
  unfoldable pub check : String → (W → Result CheckResult × W) → Doctor × W → Doctor × W
  unfolding outcome counted
  check name fn (d, w) = elim d.blocked_reason [
    | some reason ↦ (counted name (found status_skip (append "skipped: " reason)) d, w)
    | none ↦ let out = fn w in (counted name (outcome out.0) d, out.1)
  ]

  unfoldable pub block_if_failed : String → String → Doctor × W → Doctor × W
  unfolding has_failed block
  block_if_failed name reason (d, w) =
      if has_failed d.printed name then (block reason d, w) else (d, w)

  unfoldable pub run_lines : List (Line W) → Doctor × W → Doctor × W
  unfolding check block_if_failed
  run_lines [] s = s
  run_lines (checks name fn ∷ ls) s = run_lines ls (check name fn s)
  run_lines (blocks name reason ∷ ls) s = run_lines ls (block_if_failed name reason s)

  -- What `main` goes on with when the version of Python is supported.
  abbrev pub later_lines : Checks W → List (Line W)
  later_lines c =
      checks "filesystem" c.check_filesystem
      ∷ checks "virtualenv" c.check_venv
      ∷ checks "python packages" c.check_python_packages
      ∷ checks "dbt" c.check_dbt
      ∷ checks "optional tools" c.check_optional_tools
      ∷ blocks "python packages" "python packages are missing; run `make install` first"
      ∷ checks ".env" c.check_env_file
      ∷ checks "dbt profile" c.check_dbt_profile
      ∷ checks "dbt packages" c.check_dbt_packages
      ∷ checks "data directories" c.check_repo_layout
      ∷ blocks ".env" "no .env, so there is no Snowflake configuration to test"
      ∷ checks "credentials" c.check_private_key
      ∷ blocks "credentials" "credentials are not usable"
      ∷ checks "account DNS" c.check_dns
      ∷ blocks "account DNS" "the account host does not resolve"
      ∷ checks "connection" c.check_snowflake_connection
      ∷ blocks "connection" "cannot connect to Snowflake"
      ∷ checks "warehouses" c.check_warehouses
      ∷ checks "deployed objects" c.check_snowflake_objects
      ∷ checks "pipeline health" c.check_pipeline_health
      ∷ []

  -- The exit code, with what was printed and the world.
  unfoldable pub main : Checks W → W → ℕ × (Doctor × W)
  unfolding check has_failed run_lines exit_code
  main c w =
      let first = check "python version" c.check_python (new_doctor, w) in
      if has_failed first.0.printed "python version"
      then (1, first)
      else let last = run_lines (later_lines c) first in (exit_code last.0, last)
