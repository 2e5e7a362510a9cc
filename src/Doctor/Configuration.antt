-- ===== src/Doctor/Configuration.antt =====
-- The checks of scripts/doctor.py on the versions of dbt, on the environment file, on dbt's packages
-- and on the private key. What the file system, dbt and the key's loader answer are arguments.
use Prim.Native.Char.{Char, code}
use snowflake_trade_pipeline.Prelude.{
  is_empty, ℕ, ◌%◌, String, Bool, true, false, not, ◌&&◌, ◌||◌, Option, none, some, List, [], ◌∷◌,
  ◌++◌, map, if◌then◌else◌, ◌==◌, nat_eq, string_eq, contains, keep,
}
use snowflake_trade_pipeline.Prelude.Dict.{Dict, lookup, insert}
use snowflake_trade_pipeline.Result.{Result, ok, err}
use snowflake_trade_pipeline.Deploy.Texts.{append, strip}
use snowflake_trade_pipeline.Deploy.Phases.{starts_with, occurs}
use snowflake_trade_pipeline.Settings.Casing.{lower}
use snowflake_trade_pipeline.Settings.{SnowflakeSettings}
use snowflake_trade_pipeline.SqlRunner.Table.{join}
use snowflake_trade_pipeline.Validation.{sorted_set}
use snowflake_trade_pipeline.Gates.Ingest.{first_items}
use snowflake_trade_pipeline.Doctor.{status_ok, status_warn, status_fail, CheckResult, found}

-- `line.partition(sep)` for one character, without the separator
unfoldable pub partition : Char → String → String × String
partition sep String.[] = ("", "")
partition sep (String.◌∷◌ c s) =
    let rest = partition sep s in
    if code c == code sep then ("", s) else (String.◌∷◌ c rest.0, rest.1)

-- `stripped.lstrip("- ")`
unfoldable pub strip_bullet : String → String
strip_bullet String.[] = ""
strip_bullet (String.◌∷◌ c s) =
    let rest = strip_bullet s in if code c == b'-' || code c == b' ' then rest else String.◌∷◌ c s

-- `stripped.endswith(":")`
unfoldable pub ends_in_colon : String → Bool
ends_in_colon String.[] = false
ends_in_colon (String.◌∷◌ c String.[]) = code c == b':'
ends_in_colon (String.◌∷◌ c (String.◌∷◌ d s)) = ends_in_colon (String.◌∷◌ d s)

-- `stripped.rstrip(":")`
unfoldable pub strip_colons : String → String
strip_colons String.[] = ""
strip_colons (String.◌∷◌ c s) =
    let rest = strip_colons s in if rest == "" && code c == b':' then "" else String.◌∷◌ c rest

-- The component of the lines at hand, and the versions read so far.
pub record Scan : Type 0 where
  pub section : String
  pub versions : Dict String String

unfoldable pub with_version : Scan → String × String → Scan
unfolding strip lower insert
with_version s (name, value) = record s {
  versions =
      insert s.versions (if s.section == "core" then "core" else lower (strip name)) (strip value);
}

unfoldable pub scan_line : Scan → String → Scan
unfolding strip ends_in_colon strip_colons starts_with occurs strip_bullet partition lower
    with_version
scan_line s line =
    let stripped = strip line in
    if ends_in_colon stripped && not (starts_with "-" stripped)
    then record s { section = lower (strip_colons stripped) }
    else if starts_with "-" stripped && occurs ":" stripped
    then with_version s (partition ":" (strip_bullet stripped))
    else s

unfoldable pub scan_lines : Scan → List String → Scan
unfolding scan_line
scan_lines s [] = s
scan_lines s (line ∷ lines) = scan_lines (scan_line s line) lines

-- Whether dbt is found, and the lines of what it prints; an error is that it could not be run.
unfoldable pub check_dbt : Bool → Result (List String) → CheckResult
unfolding scan_lines lookup
check_dbt false printed = found status_fail "dbt not found"
check_dbt true (err e) = found status_fail "could not run dbt"
check_dbt true (ok lines) =
    let versions = (scan_lines record { section = ""; versions = [] } lines).versions in
    let core = elim (lookup versions "core") as (λ _. String) [
      | some v ↦ v
      | none ↦ "version unknown"
    ] in
    elim (lookup versions "snowflake") [
      | none ↦
          found status_fail
            (append "dbt-core " (append core " but the Snowflake adapter is not installed"))
      | some adapter ↦
          found status_ok (append "dbt-core " (append core (append ", dbt-snowflake " adapter)))
    ]

-- `if "=" in line and not line.strip().startswith("#")`
unfoldable pub sets_key : String → Bool
unfolding occurs starts_with strip
sets_key line = occurs "=" line && not (starts_with "#" (strip line))

unfoldable pub keys_of : List String → List String
unfolding keep sets_key partition strip
keys_of lines = map (λ line. strip (partition "=" line).0) (keep sets_key lines)

-- The lines of .env and of .env.example, where there are such files.
unfoldable pub check_env_file : Option (List String) → Option (List String) → CheckResult
unfolding sorted_set keep contains keys_of join first_items
check_env_file none example = found status_fail "no .env in the repo root"
check_env_file (some env) none = found status_ok ".env present"
check_env_file (some env) (some example) =
    let absent = sorted_set (keep (λ k. not (contains (keys_of env) k)) (keys_of example)) in
    record {
      status = status_ok;
      detail = ".env present";
      notes =
          if is_empty absent
          then []
          else append "not set (defaults apply): " (join ", " (first_items 8 absent)) ∷ [];
    }

-- The entries of dbt/dbt_packages, each with whether it is a directory; `none` is no such directory.
unfoldable pub check_dbt_packages : Option (List (String × Bool)) → CheckResult
unfolding sorted_set keep join
check_dbt_packages none = found status_fail "dbt packages not installed"
check_dbt_packages (some []) = found status_fail "dbt packages not installed"
check_dbt_packages (some (e ∷ es)) =
    found status_ok (join ", " (sorted_set (map (λ p. p.0) (keep (λ p. p.1) (e ∷ es)))))

-- A key's file: its name, its permissions with their octal text, whether it parses with the
-- passphrase that is set, and the path of the public key if there is one.
pub record KeyFile : Type 0 where
  pub name : String
  pub mode : ℕ
  pub octal_mode : String
  pub parses : Option String → Bool
  pub public : Option String

-- `settings.private_key_passphrase … or None`
unfoldable pub passphrase_of : SnowflakeSettings → Option String
passphrase_of settings = elim settings.private_key_passphrase [
  | none ↦ none
  | some s ↦ if s == "" then none else some s
]

-- `mode & 0o077`, of the permissions
unfoldable pub is_readable_by_others : KeyFile → Bool
is_readable_by_others key = not (key.mode % 64 == 0)

unfoldable pub key_notes : String → KeyFile → List String
unfolding is_readable_by_others join
key_notes path key =
    (if is_readable_by_others key
      then join "" (
          "permissions are " ∷ key.octal_mode ∷ "; a private key should be 600 (chmod 600 " ∷ path
          ∷ ")" ∷ [])
        ∷ []
      else [])
    ++ (elim key.public as (λ _. List String) [
      | none ↦ []
      | some public ↦ append "public key to register: " public ∷ []
    ])

-- The settings, which may be invalid, and the file under a path.
unfoldable pub check_private_key :
    Result SnowflakeSettings → (String → Option KeyFile) → CheckResult
unfolding passphrase_of key_notes
check_private_key (err e) file = found status_fail "configuration is invalid"
check_private_key (ok settings) file = elim settings.private_key_path [
  | none ↦ elim settings.password [
    | some password ↦ found status_warn "using password authentication"
    | none ↦ found status_fail "no credentials configured"
  ]
  | some path ↦ elim (file path) [
    | none ↦ found status_fail (append "private key not found at " path)
    | some key ↦
        if key.parses (passphrase_of settings)
        then record {
          status = status_ok;
          detail = append "key-pair auth, key parses (" (append key.name ")");
          notes = key_notes path key;
        }
        else found status_fail "key present but unusable"
  ]
]
