-- ===== src/Session.antt =====
-- SnowflakeSession of ingestion/src/trade_sim/loaders/snowflake_loader.py: the life of a connection
-- with its retries, and the statements sent over it. The connector, which is not part of the
-- repository, is a `Driver`: what it answers depends on everything that it was asked before.
pub mod Composed
pub mod Retries
pub mod Kwargs
pub mod Bounds
pub mod Sending
use snowflake_trade_pipeline.Prelude.{
  ℕ, zero, suc, ◌^◌, String, Bool, true, false, not, Option, none, some, List, [], ◌∷◌, ◌++◌, ltb,
  if◌then◌else◌,
}
use snowflake_trade_pipeline.Prelude.Dict.{Dict}
use snowflake_trade_pipeline.Result.{Error, runtime_error, stop_iteration, Result, ok, err}

-- A value of a row, or a JSON document.
mutual
  pub data Value : Type 0 where
    null : Value
    number : ℕ → Value
    text : String → Value
    object : Members → Value

  pub data Members : Type 0 where
    no_members : Members
    member : String → Value → Members → Members

abbrev pub ResultRow : Type 0
ResultRow = Dict String Value

abbrev pub Query : Type 0
Query = String × List String

-- What the session does to the world outside.
pub data Call : Type 0 where
  dials : Call
  sleeps : ℕ → Call
  closes : ℕ → Call
  sends : Query → Call

-- `snowflake.connector.connect`: a connection, an error that is retried (OperationalError or
-- DatabaseError), or another one.
pub data Attempt : Type 0 where
  opened : ℕ → Attempt
  refused : Attempt
  broke : Error → Attempt

-- `cur.fetchall()`; a statement without a result set raises NotSupportedError.
pub data Fetch : Type 0 where
  fetched : List ResultRow → Fetch
  not_supported : Fetch
  fetch_failed : Error → Fetch

-- `cur.execute`: the query's id and what can be fetched for each statement of the script.
pub data Answer : Type 0 where
  answered : String → Fetch → List Fetch → Answer
  raised : Error → Answer

-- The calls made so far come latest first.
pub record Driver : Type 0 where
  pub dial : List Call → Attempt
  pub is_closed : List Call → ℕ → Bool
  pub answer : List Call → Answer

pub record Session : Type 0 where
  pub connection : Option ℕ
  pub last_query_id : Option String
  pub calls : List Call

abbrev pub new_session : Session
new_session = record { connection = none; last_query_id = none; calls = [] }

abbrev pub asked : Call → Session → Session
asked c s = record s { calls = c ∷ s.calls }

-- A method of the session.
abbrev pub Action : Type 0 → Type 0
Action A = Session → Result A × Session

abbrev pub continue : {A B : Type 0} → Result A × Session → (A → Action B) → Result B × Session
continue (ok a, s) f = f a s
continue (err e, s) f = (err e, s)

infixl 5 ◌>>=◌ ◌>>◌
abbrev pub ◌>>=◌ : {A B : Type 0} → Action A → (A → Action B) → Action B
m >>= f = λ s. continue (m s) f

abbrev pub ◌>>◌ : {A B : Type 0} → Action A → Action B → Action B
m >> k = m >>= λ _. k

abbrev pub return : {A : Type 0} → Result A → Action A
return r s = (r, s)

-- `fetchall()`, or no rows where there is no result set.
unfoldable pub rows_of : Fetch → Result (List ResultRow)
rows_of (fetched rows) = ok rows
rows_of not_supported = ok []
rows_of (fetch_failed e) = err e

-- `fetchall()` and `nextset()` until there is no further result set.
unfoldable pub drain_sets : Fetch → List Fetch → Result (List (List ResultRow))
unfolding rows_of
drain_sets first [] = elim (rows_of first) [ ok rows ↦ ok (rows ∷ []) | err e ↦ err e ]
drain_sets first (next ∷ more) = elim (rows_of first) [
  | err e ↦ err e
  | ok rows ↦ elim (drain_sets next more) [ ok rest ↦ ok (rows ∷ rest) | err e ↦ err e ]
]

-- `next(iter(row.values()))`
unfoldable pub first_value : ResultRow → Result Value
first_value [] = err stop_iteration
first_value ((column, v) ∷ row) = ok v

unfoldable pub scalar_of : List ResultRow → Result Value
unfolding first_value
scalar_of [] = ok null
scalar_of (row ∷ rows) = first_value row

module _ (driver : Driver) (max_retries : ℕ) where
  -- The attempts from this one on, of which so many are left.
  unfoldable pub connect_from : ℕ → ℕ → Action ℕ
  connect_from attempt zero s = (err runtime_error, s)
  connect_from attempt (suc left) s = elim (driver.dial s.calls) [
    | opened c ↦ (ok c, record s { connection = some c; calls = dials ∷ s.calls })
    | broke e ↦ (err e, asked dials s)
    | refused ↦ elim (ltb attempt max_retries) [
      | true ↦ connect_from (suc attempt) left (asked (sleeps (2 ^ attempt)) (asked dials s))
      | false ↦ connect_from (suc attempt) left (asked dials s)
    ]
  ]

  unfoldable pub open_connection : Session → Option ℕ
  open_connection s = elim s.connection [
    | none ↦ none
    | some c ↦ if driver.is_closed s.calls c then none else some c
  ]

  unfoldable pub connect : Action ℕ
  unfolding connect_from open_connection
  connect s = elim (open_connection s) [ some c ↦ (ok c, s) | none ↦ connect_from 1 max_retries s ]

  unfoldable pub close : Session → Session
  unfolding open_connection
  close s = elim (open_connection s) [
    | some c ↦ record s { connection = none; calls = closes c ∷ s.calls }
    | none ↦ s
  ]

  -- `cur.execute(sql, params)`, with the query's id kept: what can be fetched.
  unfoldable pub run_statement : Query → Action (Fetch × List Fetch)
  run_statement q s = elim (driver.answer (sends q ∷ s.calls)) [
    | answered id first more ↦
        (ok (first, more), record s { last_query_id = some id; calls = sends q ∷ s.calls })
    | raised e ↦ (err e, asked (sends q) s)
  ]

  unfoldable pub execute : String → List String → Action (List ResultRow)
  unfolding connect run_statement rows_of
  execute sql params = do connect; got ← run_statement (sql, params); return (rows_of got.0)

  unfoldable pub execute_script : String → Action (List (List ResultRow))
  unfolding connect run_statement drain_sets
  execute_script sql = do connect; got ← run_statement (sql, []); return (drain_sets got.0 got.1)

  unfoldable pub scalar : String → List String → Action Value
  unfolding execute scalar_of
  scalar sql params = do rows ← execute sql params; return (scalar_of rows)
