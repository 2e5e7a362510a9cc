-- ===== src/Loader.antt =====
-- SnowflakeLoader of ingestion/src/trade_sim/loaders/snowflake_loader.py: PUT a file, COPY it into
-- the raw table, and drain the stream. `json.loads` is a parameter.
pub mod Order
use Prim.Native.Char.{code}
use snowflake_trade_pipeline.Prelude.{
  ℕ, zero, String, Bool, true, false, ◌&&◌, Option, none, some, List, [], ◌∷◌, ◌==◌, nat_eq,
  string_eq,
}
use snowflake_trade_pipeline.Result.{
  Error, type_error, attribute_error, runtime_error, Result, ok, err,
}
use snowflake_trade_pipeline.Deploy.Texts.{append}
use snowflake_trade_pipeline.Session.{
  Value, null, number, text, object, Members, no_members, member, ResultRow, Driver, Session,
  Action, ◌>>=◌, ◌>>◌, continue, return, execute, scalar, first_value,
}

-- A local file: its name and its absolute path.
pub record LocalFile : Type 0 where
  pub name : String
  pub resolved : String

-- `s.rstrip("/")`
unfoldable pub strip_slashes : String → String
strip_slashes String.[] = ""
strip_slashes (String.◌∷◌ c s) =
    let rest = strip_slashes s in
    elim (rest == "" && code c == b'/') [ true ↦ "" | false ↦ String.◌∷◌ c rest ]

-- `d[k] = v` on a JSON object
unfoldable pub set_member : Members → String → Value → Members
set_member no_members k v = member k v no_members
set_member (member j w d) k v = elim (j == k) [
  | true ↦ member j v d
  | false ↦ member j w (set_member d k v)
]

unfoldable pub first_row : List ResultRow → ResultRow
first_row [] = []
first_row (row ∷ rows) = row

-- `result.get(…)` is refused unless the result is an object.
unfoldable pub as_object : Value → Result Members
as_object (object m) = ok m
as_object v = err attribute_error

unfoldable pub put_sql : String → LocalFile → String → String
unfolding strip_slashes
put_sql stage file subpath =
    let target = strip_slashes (append "@" (append stage (append "/" subpath))) in
    append "put 'file://" (
      append file.resolved
        (append "' " (append target " auto_compress = false overwrite = false parallel = 8")))

abbrev pub copy_sql : String
copy_sql = "call raw.sp_load_trade_files(%s, %s)"

abbrev pub drain_sql : String
drain_sql = "call raw.sp_drain_trade_event_stream(%s)"

module _ (loads : String → Result Value) where
  -- `_json.loads(raw) if isinstance(raw, str) else raw`
  unfoldable pub decoded : Value → Result Value
  decoded (text s) = loads s
  decoded v = ok v

  unfoldable pub copied : List ResultRow → Result Members
  unfolding decoded first_value as_object
  copied [] = err runtime_error
  copied (row ∷ rows) = elim (first_value row) [
    | err e ↦ err e
    | ok raw ↦ elim (decoded raw) [ err e ↦ err e | ok v ↦ as_object v ]
  ]

  unfoldable pub drained : List ResultRow → Result Value
  unfolding decoded first_value
  drained [] = decoded (text "{}")
  drained (row ∷ rows) = elim (first_value row) [ err e ↦ err e | ok raw ↦ decoded raw ]

  module _ (driver : Driver) (max_retries : ℕ) (stage : String) where
    unfoldable pub put : LocalFile → String → Action ResultRow
    unfolding execute first_row put_sql
    put file subpath = do
      rows ← execute driver max_retries (put_sql stage file subpath) []
      return (ok (first_row rows))

    unfoldable pub copy_into_raw : String → String → Action Members
    unfolding execute copied
    copy_into_raw pattern run_id = do
      rows ← execute driver max_retries copy_sql (pattern ∷ run_id ∷ [])
      return (copied rows)

    unfoldable pub drain_stream : String → Action Value
    unfolding execute drained
    drain_stream run_id = do
      rows ← execute driver max_retries drain_sql (run_id ∷ [])
      return (drained rows)

    -- The stream is drained if that is wanted, and its answer kept under "drain".
    unfoldable pub with_drain : Bool → String → Members → Action Members
    unfolding drain_stream set_member
    with_drain false run_id copy_result = return (ok copy_result)
    with_drain true run_id copy_result = do
      v ← drain_stream run_id
      return (ok (set_member copy_result "drain" v))

    unfoldable pub load_file : LocalFile → String → String → Bool → Action Members
    unfolding put copy_into_raw with_drain
    load_file file partition run_id drain = do
      put file partition
      copy_result ← copy_into_raw (append ".*" file.name) run_id
      with_drain drain run_id copy_result

    unfoldable pub verify_stage : Action (List ResultRow)
    unfolding execute
    verify_stage = execute driver max_retries (append "list @" stage) []

    -- `_json.loads(raw) if isinstance(raw, str) else (raw or {})`
    unfoldable pub pipe_status : String → Action Value
    unfolding scalar decoded
    pipe_status database = do
      raw ←
          scalar driver max_retries
            (append "select system$pipe_status('" (append database ".raw.pipe_trade_event')")) []
      return (elim raw [
        | null ↦ ok (object no_members)
        | number zero ↦ ok (object no_members)
        | v ↦ decoded v
      ])
