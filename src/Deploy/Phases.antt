-- ===== src/Deploy/Phases.antt =====
-- The phases of scripts/deploy_snowflake_sql.py: which directories they claim, and which files of
-- them are deployed. The file system is an argument.
use snowflake_trade_pipeline.Prelude.{
  is_empty, String, Bool, true, false, not, ◌&&◌, ◌||◌, Option, none, some, List, [], ◌∷◌, ◌++◌,
  map, if◌then◌else◌, ◌==◌, string_eq, nat_eq, contains, keep,
}
use snowflake_trade_pipeline.Prelude.Dict.{Dict, lookup}
use snowflake_trade_pipeline.Prelude.Sorting.{is_before}
use snowflake_trade_pipeline.Result.{key_error, system_exit, Result, ok, err}
use snowflake_trade_pipeline.Deploy.Render.{has_chars}
use Prim.Native.Char.{code}

abbrev pub phases : Dict String (List String)
phases =
    ("manual", "00_bootstrap" ∷ [])
    ∷ ("pre-dbt", "10_ingestion" ∷ "20_streams_tasks" ∷ [])
    ∷ ("post-dbt", "30_monitoring" ∷ "40_alerts" ∷ [])
    ∷ []

abbrev pub deployable_phases : List String
deployable_phases = "pre-dbt" ∷ "post-dbt" ∷ []

abbrev pub concat {ℓ} : {A : Type ℓ} → List (List A) → List A
concat [] = []
concat (xs ∷ xss) = xs ++ concat xss

abbrev pub assigned : List String
assigned = concat (map (λ p. p.1) phases)

-- `s.startswith(prefix)`
unfoldable pub starts_with : String → String → Bool
starts_with String.[] s = true
starts_with (String.◌∷◌ p prefix) String.[] = false
starts_with (String.◌∷◌ p prefix) (String.◌∷◌ c s) = code p == code c && starts_with prefix s

-- `part in s`
unfoldable pub occurs : String → String → Bool
unfolding starts_with
occurs part String.[] = starts_with part ""
occurs part (String.◌∷◌ c s) = starts_with part (String.◌∷◌ c s) || occurs part s

-- The directories under snowflake/ whose names do not begin with a dot.
unfoldable pub assert_every_directory_has_a_phase : List String → Result (Unit {0})
unfolding contains keep starts_with
assert_every_directory_has_a_phase directories =
    let present = keep (λ d. not (starts_with "." d)) directories in
    if not (is_empty (keep (λ d. not (contains assigned d)) present))
    then err system_exit
    else if not (is_empty (keep (λ d. not (contains present d)) assigned))
    then err system_exit
    else ok tt

-- A path below its directory, with its last part and that part without its suffix.
pub record SqlFile : Type 0 where
  pub path : String
  pub name : String
  pub stem : String

unfoldable pub is_deployed : SqlFile → Bool
unfolding starts_with occurs
is_deployed f = not (starts_with "._" f.name) && not (occurs "_reference" f.stem)

unfoldable pub insert_file : SqlFile → List SqlFile → List SqlFile
insert_file f [] = f ∷ []
insert_file f (g ∷ gs) =
    let rest = insert_file f gs in if is_before g.path f.path then g ∷ rest else f ∷ g ∷ gs

unfoldable pub sorted_files : List SqlFile → List SqlFile
unfolding insert_file
sorted_files [] = []
sorted_files (f ∷ fs) = insert_file f (sorted_files fs)

module _ (files_below : String → List SqlFile) where
  unfoldable pub files_of : List String → List SqlFile
  unfolding sorted_files is_deployed keep
  files_of [] = []
  files_of (directory ∷ directories) =
      sorted_files (keep is_deployed (files_below directory)) ++ files_of directories

  -- `PHASES[phase_name]` for every phase wanted
  unfoldable pub files_of_phases : List String → Result (List SqlFile)
  unfolding files_of lookup
  files_of_phases [] = ok []
  files_of_phases (phase ∷ wanted) = elim (lookup phases phase) [
    | none ↦ err key_error
    | some directories ↦ elim (files_of_phases wanted) [
      | err e ↦ err e
      | ok rest ↦ ok (files_of directories ++ rest)
    ]
  ]

  -- `only` is matched against the path below snowflake/.
  unfoldable pub chosen_files : Option String → List SqlFile → Result (List SqlFile)
  unfolding keep occurs
  chosen_files none files = ok files
  chosen_files (some only) files =
      if not (has_chars only)
      then ok files
      else (let matched = keep (λ f. occurs only f.path) files in
          if is_empty matched then err system_exit else ok matched)

  unfoldable pub discover : Bool → List String → Option String → String → Result (List SqlFile)
  unfolding assert_every_directory_has_a_phase files_of_phases chosen_files
  discover is_dir directories only phase =
      if not is_dir
      then err system_exit
      else elim (assert_every_directory_has_a_phase directories) [
        | err e ↦ err e
        | ok _ ↦ elim (files_of_phases (if phase == "all" then deployable_phases else phase ∷ [])) [
          | err e ↦ err e
          | ok files ↦ chosen_files only files
        ]
      ]
