-- ===== src/Gates/Ingest.antt =====
-- The tasks wait_for_files, load_files and drain_stream of airflow/dags/trade_pipeline.py with the
-- session that each task opens, over the calls made before it. `json.loads`, and `int` of a text,
-- are parameters, and so is whether a path is a file, which no task changes.
pub mod Sending
use Prim.Native.Char.{code}
use snowflake_trade_pipeline.Prelude.{
  is_empty, ℕ, zero, suc, ◌+◌, String, Bool, true, false, not, ◌&&◌, ◌||◌, Option, none, some, List,
  [], ◌∷◌, map, ltb, if◌then◌else◌, ◌==◌, string_eq, contains, keep,
}
use snowflake_trade_pipeline.Result.{
  Error, type_error, key_error, airflow_fail, Result, ok, err, ◌>>=◌,
}
use snowflake_trade_pipeline.Prelude.Dict.{lookup}
use snowflake_trade_pipeline.Deploy.Texts.{append}
use snowflake_trade_pipeline.Session.{
  Value, null, number, text, object, Members, no_members, member, Call, ResultRow, Driver, Session,
  Action, continue, return, execute, scalar, connect, close, new_session,
}
use snowflake_trade_pipeline.Loader.{LocalFile, load_file, copy_into_raw, drain_stream}
use snowflake_trade_pipeline.Commands.Operations.{get_member}

-- A `pathlib.Path`, with the name of its parent.
pub record FeedFile : Type 0 where
  pub name : String
  pub parent_name : String
  pub resolved : String

abbrev pub local_file : FeedFile → LocalFile
local_file p = record { name = p.name; resolved = p.resolved }

-- What `wait_for_files` found: files of this machine, or names on the stage.
pub data Detected : Type 0 where
  local : List FeedFile → Detected
  staged : List (Option Value) → Detected

pub data Poke : Type 0 where
  waits : Poke
  is_done : Detected → Poke

-- `str.isdigit`, of ASCII characters
unfoldable pub digits_of : String → String
digits_of String.[] = ""
digits_of (String.◌∷◌ c s) =
    let rest = digits_of s in if ltb 47 (code c) && ltb (code c) 58 then String.◌∷◌ c rest else rest

-- `s[:n]`
unfoldable pub prefix : ℕ → String → String
prefix zero s = ""
prefix (suc n) String.[] = ""
prefix (suc n) (String.◌∷◌ c s) = String.◌∷◌ c (prefix n s)

-- `f"af{run_digits[:14]}"`
unfoldable pub arrival_ref : String → String
unfolding digits_of prefix
arrival_ref run_id = append "af" (prefix 14 (digits_of run_id))

unfoldable pub first_items {ℓ} : {A : Type ℓ} → ℕ → List A → List A
first_items zero xs = []
first_items (suc n) [] = []
first_items (suc n) (x ∷ xs) = x ∷ first_items n xs

-- The names of `list @raw.trade_landing`, fifty at most.
unfoldable pub staged_names : List ResultRow → List (Option Value)
unfolding first_items lookup
staged_names rows = first_items 50 (map (λ row. lookup row "name") rows)

abbrev pub staged_pattern : String
staged_pattern = ".*[.]ndjson([.]gz)?"

-- What `load_files` returns: "files_loaded", "rows_loaded" and "rows_errored" are totals.
pub record Loads : Type 0 where
  pub batches : List (Option Value)
  pub rows_loaded : ℕ
  pub rows_errored : ℕ
  pub files_loaded : ℕ

module _ (int : String → Result ℕ) where
  -- `int(v or 0)`
  unfoldable pub int_or_zero : Option Value → Result ℕ
  int_or_zero none = ok 0
  int_or_zero (some null) = ok 0
  int_or_zero (some (number n)) = ok n
  int_or_zero (some (text s)) = if s == "" then ok 0 else int s
  int_or_zero (some (object no_members)) = ok 0
  int_or_zero (some (object (member k v m))) = err type_error

  -- `sum(int(r.get(key) or 0) for r in results)`
  unfoldable pub total_of : String → List Members → Result ℕ
  unfolding int_or_zero get_member
  total_of key [] = ok 0
  total_of key (m ∷ ms) = do
    n ← int_or_zero (get_member m key)
    total ← total_of key ms
    ok (n + total)

  unfoldable pub summary : List Members → Result Loads
  unfolding total_of get_member
  summary results = do
    loaded ← total_of "rows_loaded" results
    errored ← total_of "rows_errored" results
    files ← total_of "files_loaded" results
    ok record {
      batches = map (λ m. get_member m "batch_id") results;
      rows_loaded = loaded;
      rows_errored = errored;
      files_loaded = files;
    }

unfoldable pub poke_of : List ResultRow → Poke
unfolding staged_names
poke_of rows = if is_empty rows then waits else is_done (staged (staged_names rows))

module _ (driver : Driver) (max_retries : ℕ) where
  -- `with sf.session(…) as session:` a new session, closed in the end whether the body raises or not.
  unfoldable pub with_session : {A : Type 0} → Action A → List Call → Result A × List Call
  unfolding connect close
  with_session body calls =
      let out =
        continue (connect driver max_retries record new_session { calls = calls }) (λ c. body) in
      (out.0, (close driver max_retries out.1).calls)

  -- One poke of the sensor.
  unfoldable pub wait_for_files : List FeedFile → List Call → Result Poke × List Call
  unfolding with_session execute poke_of
  wait_for_files (f ∷ fs) calls = (ok (is_done (local (f ∷ fs))), calls)
  wait_for_files [] calls =
      let out = with_session (execute driver max_retries "list @raw.trade_landing" []) calls in
      (out.0 >>= (λ rows. ok (poke_of rows)), out.1)

  module _ (loads : String → Result Value) (stage : String) where
    -- The results of the files before a file that is missing are lost.
    unfoldable pub load_local : (FeedFile → Bool) → String → List FeedFile → Action (List Members)
    unfolding load_file
    load_local is_file run_id [] = return (ok [])
    load_local is_file run_id (p ∷ ps) = elim (is_file p) [
      | false ↦ return (err airflow_fail)
      | true ↦ λ s.
          continue
            (load_file loads driver max_retries stage (local_file p) p.parent_name run_id false s)
            λ r t. continue (load_local is_file run_id ps t) λ rs. return (ok (r ∷ rs))
    ]

    unfoldable pub load_detected : (FeedFile → Bool) → String → Detected → Action (List Members)
    unfolding load_local copy_into_raw
    load_detected is_file run_id (local ps) s = load_local is_file run_id ps s
    load_detected is_file run_id (staged names) s =
        continue (copy_into_raw loads driver max_retries stage staged_pattern run_id s)
          λ r. return (ok (r ∷ []))

    unfoldable pub load_files :
        (String → Result ℕ)
        → (FeedFile → Bool)
        → String
        → Detected
        → List Call
        → Result Loads × List Call
    unfolding with_session load_detected summary
    load_files int is_file run_id detected calls =
        let out = with_session (load_detected is_file run_id detected) calls in
        (out.0 >>= summary int, out.1)

    unfoldable pub drain_task : String → List Call → Result Value × List Call
    unfolding with_session drain_stream
    drain_task run_id = with_session (drain_stream loads driver max_retries stage run_id)
