-- ===== src/Session/Sending.antt =====
-- Which statements the methods of SnowflakeSession in
-- ingestion/src/trade_sim/loaders/snowflake_loader.py send, and where a chain of them stops.
use snowflake_trade_pipeline.Prelude.{
  ℕ, zero, suc, ◌^◌, String, ◌≡◌, refl, sym, ap, ◌∙◌, ◌⊎◌, inl, inr, false, some, List, [], ◌∷◌,
  ◌++◌, ltb, Bool-cases, Option-cases,
}
use mathlib.Core.List.{append_assoc, append-nil}
use snowflake_trade_pipeline.Session.Retries.{Attempt-cases, connect-closed, connect-open}
use snowflake_trade_pipeline.Result.{Error, Result, ok, err}
use snowflake_trade_pipeline.Session.{
  Call, dials, sleeps, sends, Query, Fetch, fetched, Answer, answered, raised, ResultRow, Driver,
  Session, Action, ◌>>=◌, continue, return, asked, connect_from, open_connection, connect,
  run_statement, rows_of, execute,
}

-- The statements sent, the first one first.
abbrev pub statements : List Call → List Query
statements [] = []
statements (sends q ∷ calls) = statements calls ++ q ∷ []
statements (_ ∷ calls) = statements calls

-- An action that returns has sent the whole script, and one that raises a first part of it.
abbrev pub HasSent : {A : Type 0} → List Query → Session → Result A × Session → Type 0
HasSent script s (ok a, t) = statements t.calls ≡ statements s.calls ++ script
HasSent script s (err e, t) =
    (taken : List Query) × (rest : List Query) × (taken ++ rest ≡ script)
    × (statements t.calls ≡ statements s.calls ++ taken)

abbrev pub Sends : {A : Type 0} → List Query → Action A → Type 0
Sends script m = (s : Session) → HasSent script s (m s)

sent_nothing :
    (s t : Session)
    → statements t.calls ≡ statements s.calls
    → statements t.calls ≡ statements s.calls ++ []
sent_nothing s t e = e ∙ sym (append-nil (statements s.calls))

later-HasSent :
    {B : Type 0} (first second : List Query) (s t : Session) (r : Result B × Session)
    → statements t.calls ≡ statements s.calls ++ first
    → HasSent second t r
    → HasSent (first ++ second) s r
later-HasSent first second s t (ok b, u) e h =
    h ∙ ap (λ x. x ++ second) e ∙ append_assoc (statements s.calls) first second
later-HasSent first second s t (err x, u) e (taken, rest, split, all) = (
  first ++ taken,
  rest,
  append_assoc first taken rest ∙ ap (λ x. first ++ x) split,
  all ∙ ap (λ x. x ++ taken) e ∙ append_assoc (statements s.calls) first taken,
)

continue-HasSent :
    {A B : Type 0} (first second : List Query) (s : Session) (r : Result A × Session)
    (f : A → Action B)
    → HasSent first s r
    → ((a : A) → Sends second (f a))
    → HasSent (first ++ second) s (continue r f)
continue-HasSent first second s (err e, t) f (taken, rest, split, all) k =
    (taken, rest ++ second, sym (append_assoc taken rest second) ∙ ap (λ x. x ++ second) split, all)
continue-HasSent first second s (ok a, t) f h k = later-HasSent first second s t (f a t) h (k a t)

pub >>=-Sends :
    {A B : Type 0} (first second : List Query) (m : Action A) (f : A → Action B)
    → Sends first m
    → ((a : A) → Sends second (f a))
    → Sends (first ++ second) (m >>= f)
>>=-Sends first second m f h k s = continue-HasSent first second s (m s) f (h s) k

pub return-Sends : {A : Type 0} (r : Result A) → Sends [] (return r)
return-Sends (ok a) s = sent_nothing s s refl
return-Sends (err e) s = ([], [], refl, sent_nothing s s refl)

pub Answer-cases :
    (a : Answer)
    → ((id : String) × (first : Fetch) × (more : List Fetch) × (a ≡ answered id first more))
      ⊎ ((e : Error) × (a ≡ raised e))
Answer-cases (answered id first more) = inl (id, first, more, refl)
Answer-cases (raised e) = inr (e, refl)

module _ (driver : Driver) (max_retries : ℕ) where
  same_start :
      {A : Type 0} (s t : Session) (r : Result A × Session)
      → statements t.calls ≡ statements s.calls
      → HasSent [] t r
      → HasSent [] s r
  same_start s t r e h = later-HasSent [] [] s t r (sent_nothing s t e) h

  connect_from-Sends : (attempt left : ℕ) → Sends [] (connect_from driver max_retries attempt left)
  unfolding connect_from
  connect_from-Sends attempt zero s = ([], [], refl, sent_nothing s s refl)
  connect_from-Sends attempt (suc left) s = elim (Attempt-cases (driver.dial s.calls)) [
    | inl (c, e) ↦ rw (e, connect_from) (sent_nothing s (asked dials s) refl)
    | inr (inr (x, e)) ↦ rw (e, connect_from) ([], [], refl, sent_nothing s (asked dials s) refl)
    | inr (inl e) ↦ elim (Bool-cases (ltb attempt max_retries)) [
      | inl t ↦
          let u : Session = asked (sleeps (2 ^ attempt)) (asked dials s) in
          rw (e, t, connect_from)
            (same_start s u (connect_from driver max_retries (suc attempt) left u) refl
              (connect_from-Sends (suc attempt) left u))
      | inr t ↦
          let u : Session = asked dials s in
          rw (e, t, connect_from)
            (same_start s u (connect_from driver max_retries (suc attempt) left u) refl
              (connect_from-Sends (suc attempt) left u))
    ]
  ]

  pub connect-Sends : Sends [] (connect driver max_retries)
  unfolding connect
  connect-Sends s = elim (Option-cases (open_connection driver max_retries s)) [
    | inl e ↦ rw (connect-closed driver max_retries s e) (connect_from-Sends 1 max_retries s)
    | inr (c, e) ↦ rw (connect-open driver max_retries s c e) (sent_nothing s s refl)
  ]

  run_statement-Sends : (q : Query) → Sends (q ∷ []) (run_statement driver max_retries q)
  unfolding run_statement
  run_statement-Sends q s = elim (Answer-cases (driver.answer (sends q ∷ s.calls))) [
    | inl (id, first, more, e) ↦ rw (e, run_statement) refl
    | inr (x, e) ↦ rw (e, run_statement) (q ∷ [], [], refl, refl)
  ]

  pub execute-Sends :
      (sql : String) (params : List String)
      → Sends ((sql, params) ∷ []) (execute driver max_retries sql params)
  unfolding execute
  execute-Sends sql params =
      >>=-Sends [] ((sql, params) ∷ []) (connect driver max_retries)
        (λ c. run_statement driver max_retries (sql, params) >>= λ got. return (rows_of got.0))
        connect-Sends
        λ c.
          >>=-Sends ((sql, params) ∷ []) [] (run_statement driver max_retries (sql, params))
            (λ got. return (rows_of got.0)) (run_statement-Sends (sql, params))
            λ got. return-Sends (rows_of got.0)

  pub open_connection-some :
      (s : Session) (c : ℕ)
      → s.connection ≡ some c
      → driver.is_closed s.calls c ≡ false
      → open_connection driver max_retries s ≡ some c
  unfolding open_connection
  open_connection-some s c on up = rw (on, up, open_connection) refl

  pub execute-answered :
      (sql : String) (params : List String) (s : Session) (c : ℕ) {id : String}
      {rows : List ResultRow} {more : List Fetch}
      → open_connection driver max_retries s ≡ some c
      → driver.answer (sends (sql, params) ∷ s.calls) ≡ answered id (fetched rows) more
      → execute driver max_retries sql params s
        ≡ (ok rows, record s { last_query_id = some id; calls = sends (sql, params) ∷ s.calls })
  unfolding execute run_statement rows_of
  execute-answered sql params s c o e =
      rw (connect-open driver max_retries s c o, e, run_statement) refl
