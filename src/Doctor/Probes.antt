-- ===== src/Doctor/Probes.antt =====
-- The checks of scripts/doctor.py that look at the interpreter and at the repository. What they look
-- at outside the program is their arguments.
use snowflake_trade_pipeline.Prelude.{
  is_empty, ℕ, String, Bool, not, ◌&&◌, ◌||◌, Option, none, some, List, [], ◌∷◌, length, ltb,
  if◌then◌else◌, ◌==◌, nat_eq, string_eq, keep,
}
use snowflake_trade_pipeline.Deploy.Texts.{append}
use snowflake_trade_pipeline.Deploy.Phases.{starts_with, occurs}
use snowflake_trade_pipeline.SqlRunner.Table.{join}
use snowflake_trade_pipeline.Book.Format.{zero_padded}
use snowflake_trade_pipeline.Doctor.{status_ok, status_warn, status_fail, CheckResult, found}

-- `str` of a number
abbrev pub str : ℕ → String
str n = zero_padded 1 n

-- `sys.version_info`
pub record Version : Type 0 where
  pub major : ℕ
  pub minor : ℕ
  pub micro : ℕ

unfoldable pub check_python : Version → String → CheckResult
check_python v machine =
    let label = append (str v.major) (
      append "."
        (append (str v.minor) (append "." (append (str v.micro) (append " on " machine))))) in
    if ltb v.major 3 || (v.major == 3 && ltb v.minor 11)
    then found status_fail (append label " -- too old")
    else found status_ok label

-- `venv.is_dir()`, `sys.prefix`, `sys.base_prefix` and the resolved path of the virtualenv
unfoldable pub check_venv : Bool → String → String → String → CheckResult
unfolding starts_with
check_venv is_dir active base expected =
    if not is_dir
    then found status_warn "no .venv in the repo"
    else if active == base
    then found status_warn "running outside a virtualenv"
    else if not (starts_with expected active)
    then found status_warn (append "a different virtualenv is active: " active)
    else found status_ok "project virtualenv active"

abbrev pub required_modules : List String
required_modules =
    "snowflake.connector" ∷ "cryptography" ∷ "pydantic" ∷ "pydantic_settings" ∷ "typer" ∷ "faker"
    ∷ "trade_sim" ∷ []

-- Whether a module can be found, and the version of `trade_sim`.
unfoldable pub check_python_packages : (String → Bool) → String → CheckResult
unfolding keep
check_python_packages is_found version =
    let absent = keep (λ name. not (is_found name)) required_modules in
    if is_empty absent
    then found status_ok (append "all present, trade_sim " version)
    else found status_fail (append (str (length absent)) " package(s) missing")

abbrev pub tools : List String
tools = "docker" ∷ "terraform" ∷ "plantuml" ∷ []

unfoldable pub check_optional_tools : (String → Bool) → CheckResult
unfolding keep join
check_optional_tools is_on_path =
    let absent = keep (λ name. not (is_on_path name)) tools in
    if is_empty absent
    then found status_ok "docker, terraform, plantuml all present"
    else found status_warn (append (join ", " absent) " not on PATH")

-- Under WSL or not, `platform.system()`, and the root of the repository.
unfoldable pub check_filesystem : Bool → String → String → CheckResult
unfolding starts_with
check_filesystem under_wsl system root =
    if not under_wsl
    then found status_ok (append system ", native filesystem")
    else if starts_with "/mnt/" root
    then found status_fail (append "the repository is on a Windows drive mount: " root)
    else found status_ok "WSL, Linux filesystem"

-- The text of dbt/profiles.yml, if there is such a file.
unfoldable pub check_dbt_profile : Option String → CheckResult
unfolding occurs
check_dbt_profile none = found status_fail "no dbt/profiles.yml"
check_dbt_profile (some profile) =
    if occurs "trade_pipeline:" profile
    then found status_ok "dbt/profiles.yml present"
    else found status_fail "profiles.yml has no `trade_pipeline` profile"

-- Whether a probe can be written to a directory, which is made if it is not there.
unfoldable pub check_repo_layout : (String → Bool) → String → String → CheckResult
check_repo_layout is_writable output_dir state_dir =
    if is_writable output_dir && is_writable state_dir
    then record {
      status = status_ok;
      detail = "data directories writable";
      notes = append "landing: " output_dir ∷ append "state:   " state_dir ∷ [];
    }
    else found status_fail "cannot write to the data directories"

-- Whether a host's name is resolved.
unfoldable pub check_dns : (String → Bool) → String → CheckResult
check_dns resolves account =
    let host = append account ".snowflakecomputing.com" in
    if resolves host
    then found status_ok (append host " resolves")
    else found status_fail (append "cannot resolve " host)
