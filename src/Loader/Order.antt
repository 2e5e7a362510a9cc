-- ===== src/Loader/Order.antt =====
-- The order of the statements of `load_file` in
-- ingestion/src/trade_sim/loaders/snowflake_loader.py, and what it returns.
use snowflake_trade_pipeline.Prelude.{
  ℕ, String, ◌≡◌, refl, ap, ◌∙◌, Bool, true, false, some, List, [], ◌∷◌,
}
use snowflake_trade_pipeline.Result.{Result, ok}
use snowflake_trade_pipeline.Deploy.Texts.{append}
use snowflake_trade_pipeline.Session.{
  Value, object, Members, Call, sends, Query, Fetch, fetched, answered, ResultRow, Driver, Session,
  ◌>>=◌, Action, continue, return, first_value, execute, open_connection,
}
use snowflake_trade_pipeline.Session.Sending.{
  Sends, >>=-Sends, return-Sends, execute-Sends, execute-answered, open_connection-some,
}
use snowflake_trade_pipeline.Loader.{
  LocalFile, set_member, first_row, put_sql, copy_sql, drain_sql, copied, drained, put,
  copy_into_raw, drain_stream, with_drain, decoded, as_object, load_file,
}

abbrev pub putting : String → LocalFile → String → Query
putting stage file partition = (put_sql stage file partition, [])

abbrev pub copying : LocalFile → String → Query
copying file run_id = (copy_sql, append ".*" file.name ∷ run_id ∷ [])

abbrev pub draining : String → Query
draining run_id = (drain_sql, run_id ∷ [])

abbrev pub drain_script : Bool → String → List Query
drain_script true run_id = draining run_id ∷ []
drain_script false run_id = []

-- PUT, then COPY, then the drain if it is wanted.
abbrev pub script : String → LocalFile → String → String → Bool → List Query
script stage file partition run_id drain =
    putting stage file partition ∷ copying file run_id ∷ drain_script drain run_id

abbrev answering : Session → Query → String → Session
answering s q id = record s { last_query_id = some id; calls = sends q ∷ s.calls }

module _ (loads : String → Result Value) (driver : Driver) (max_retries : ℕ) (stage : String) where
  put-Sends :
      (file : LocalFile) (subpath : String)
      → Sends
          ((put_sql stage file subpath, []) ∷ [])
          (put loads driver max_retries stage file subpath)
  unfolding put
  put-Sends file subpath =
      let q = put_sql stage file subpath in
      >>=-Sends ((q, []) ∷ []) [] (execute driver max_retries q [])
        (λ rows. return (ok (first_row rows))) (execute-Sends driver max_retries q [])
        λ rows. return-Sends (ok (first_row rows))

  pub copy_into_raw-Sends :
      (pattern run_id : String)
      → Sends
          ((copy_sql, pattern ∷ run_id ∷ []) ∷ [])
          (copy_into_raw loads driver max_retries stage pattern run_id)
  unfolding copy_into_raw
  copy_into_raw-Sends pattern run_id =
      let params = pattern ∷ run_id ∷ [] in
      >>=-Sends ((copy_sql, params) ∷ []) [] (execute driver max_retries copy_sql params)
        (λ rows. return (copied loads rows)) (execute-Sends driver max_retries copy_sql params)
        λ rows. return-Sends (copied loads rows)

  drain_stream-Sends :
      (run_id : String)
      → Sends ((drain_sql, run_id ∷ []) ∷ []) (drain_stream loads driver max_retries stage run_id)
  unfolding drain_stream
  drain_stream-Sends run_id =
      >>=-Sends ((drain_sql, run_id ∷ []) ∷ []) []
        (execute driver max_retries drain_sql (run_id ∷ [])) (λ rows. return (drained loads rows))
        (execute-Sends driver max_retries drain_sql (run_id ∷ []))
        λ rows. return-Sends (drained loads rows)

  with_drain-Sends :
      (drain : Bool) (run_id : String) (m : Members)
      → Sends (drain_script drain run_id) (with_drain loads driver max_retries stage drain run_id m)
  unfolding with_drain
  with_drain-Sends false run_id m = return-Sends (ok m)
  with_drain-Sends true run_id m =
      >>=-Sends ((drain_sql, run_id ∷ []) ∷ []) []
        (drain_stream loads driver max_retries stage run_id)
        (λ v. return (ok (set_member m "drain" v))) (drain_stream-Sends run_id)
        λ v. return-Sends (ok (set_member m "drain" v))

  -- `load_file` sends PUT, COPY and, if it is to drain, the drain, in this order; if it raises then
  -- it has sent a first part of them and nothing else.
  pub load_file-Sends :
      (file : LocalFile) (partition run_id : String) (drain : Bool)
      → Sends
          (script stage file partition run_id drain)
          (load_file loads driver max_retries stage file partition run_id drain)
  unfolding load_file
  load_file-Sends file partition run_id drain =
      let pattern = append ".*" file.name in
      let call : Query = (copy_sql, pattern ∷ run_id ∷ []) in
      >>=-Sends ((put_sql stage file partition, []) ∷ []) (call ∷ drain_script drain run_id)
        (put loads driver max_retries stage file partition)
        (λ _.
          copy_into_raw loads driver max_retries stage pattern run_id
          >>= with_drain loads driver max_retries stage drain run_id)
        (put-Sends file partition)
        λ _.
          >>=-Sends (call ∷ []) (drain_script drain run_id)
            (copy_into_raw loads driver max_retries stage pattern run_id)
            (with_drain loads driver max_retries stage drain run_id)
            (copy_into_raw-Sends pattern run_id) (with_drain-Sends drain run_id)

  module _ (s : Session) (c : ℕ) (up : open_connection driver max_retries s ≡ some c) where
    put-answered :
        (file : LocalFile) (partition : String) {id : String} {rows : List ResultRow}
        {more : List Fetch}
        → driver.answer (sends (putting stage file partition) ∷ s.calls)
          ≡ answered id (fetched rows) more
        → put loads driver max_retries stage file partition s
          ≡ (ok (first_row rows), answering s (putting stage file partition) id)
    unfolding put
    put-answered file partition e =
        ap (λ r. continue r (λ rows. return (ok (first_row rows))))
          (execute-answered driver max_retries (put_sql stage file partition) [] s c up e)

    copy-answered :
        (file : LocalFile) (run_id : String) {id : String} {rows : List ResultRow}
        {more : List Fetch} {m : Members}
        → driver.answer (sends (copying file run_id) ∷ s.calls) ≡ answered id (fetched rows) more
        → copied loads rows ≡ ok m
        → copy_into_raw loads driver max_retries stage (append ".*" file.name) run_id s
          ≡ (ok m, answering s (copying file run_id) id)
    unfolding copy_into_raw
    copy-answered file run_id {id} e got =
        ap (λ r. continue r (λ rows. return (copied loads rows)))
          (execute-answered driver max_retries copy_sql (append ".*" file.name ∷ run_id ∷ []) s c up
            e)
        ∙ ap (λ r. return r (answering s (copying file run_id) id)) got

    drain-answered :
        (m : Members) (run_id : String) {id : String} {rows : List ResultRow} {more : List Fetch}
        {v : Value}
        → driver.answer (sends (draining run_id) ∷ s.calls) ≡ answered id (fetched rows) more
        → drained loads rows ≡ ok v
        → with_drain loads driver max_retries stage true run_id m s
          ≡ (ok (set_member m "drain" v), answering s (draining run_id) id)
    unfolding with_drain drain_stream
    drain-answered m run_id {id} e got =
        let keep : Value → Action Members = λ v. return (ok (set_member m "drain" v)) in
        ap (λ r. continue (continue r (λ rows. return (drained loads rows))) keep)
          (execute-answered driver max_retries drain_sql (run_id ∷ []) s c up e)
        ∙ ap (λ r. continue (return r (answering s (draining run_id) id)) keep) got

  -- On an open connection that stays open, if PUT is answered, the COPY procedure is answered with
  -- an object and the drain with a value that is not a text, then `load_file` returns that object
  -- with the value under "drain", and the session has sent these three statements.
  pub load_file-returns :
      (file : LocalFile) (partition run_id : String) (s : Session) (c : ℕ) {m : Members}
      {i j k column other : String} {more more' more'' : List Fetch} {placed : List ResultRow}
      {v : Value} {row row' : ResultRow} {rows rows' : List ResultRow}
      → ((calls : List Call) → driver.is_closed calls c ≡ false)
      → s.connection ≡ some c
      → driver.answer (sends (putting stage file partition) ∷ s.calls)
        ≡ answered i (fetched placed) more
      → driver.answer (sends (copying file run_id) ∷ sends (putting stage file partition) ∷ s.calls)
        ≡ answered j (fetched (((column, object m) ∷ row) ∷ rows)) more'
      → driver.answer (
          sends (draining run_id)
          ∷ sends (copying file run_id)
          ∷ sends (putting stage file partition)
          ∷ s.calls)
        ≡ answered k (fetched (((other, v) ∷ row') ∷ rows')) more''
      → decoded loads v ≡ ok v
      → load_file loads driver max_retries stage file partition run_id true s ≡ (
        ok (set_member m "drain" v),
        record s {
          last_query_id = some k;
          calls =
              sends (draining run_id)
              ∷ sends (copying file run_id)
              ∷ sends (putting stage file partition)
              ∷ s.calls;
        },
      )
  unfolding load_file copied drained first_value as_object
  load_file-returns file partition run_id s c {m} {i} {j} up on one two three plain =
      let t : Session = answering s (putting stage file partition) i in
      let u : Session = answering t (copying file run_id) j in
      let opened : (x : Session)
          → x.connection ≡ some c
          → open_connection driver max_retries x ≡ some c =
        λ x e. open_connection-some driver max_retries x c e (up x.calls) in
      let pattern = append ".*" file.name in
      let drains = with_drain loads driver max_retries stage true run_id in
      ap
        (λ r.
          continue r (λ _. copy_into_raw loads driver max_retries stage pattern run_id >>= drains))
        (put-answered s c (opened s on) file partition one)
      ∙ ap (λ r. continue r drains) (copy-answered t c (opened t on) file run_id two refl)
      ∙ drain-answered u c (opened u on) m run_id three plain
