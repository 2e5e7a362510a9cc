-- ===== src/Gates/Ingest/Sending.antt =====
-- The statements that load_files of airflow/dags/trade_pipeline.py sends, and which files it needs.
use snowflake_trade_pipeline.Prelude.{
  ℕ, String, ◌≡◌, refl, Bool, true, false, List, [], ◌∷◌, ◌++◌, All, inl, inr, Bool-cases,
  Option-cases,
}
use snowflake_trade_pipeline.Result.{airflow_fail, Result, ok, Yields, Yields-bind, Yields-any}
use snowflake_trade_pipeline.Session.{
  Value, Members, Call, Query, Driver, Session, new_session, Action, continue, return, close,
  connect, open_connection,
}
use snowflake_trade_pipeline.Session.Sending.{
  statements, HasSent, Sends, >>=-Sends, return-Sends, connect-Sends,
}
use snowflake_trade_pipeline.Session.Composed.{
  err-Sends, moved-HasSent, map-HasSent, then-HasSent, continue-Yields, map-Yields, Yields-const,
}
use snowflake_trade_pipeline.Loader.{load_file, copy_into_raw, copy_sql}
use snowflake_trade_pipeline.Loader.Order.{script, load_file-Sends, copy_into_raw-Sends}
use snowflake_trade_pipeline.Gates.Ingest.{
  FeedFile, local_file, Detected, local, staged, summary, with_session, load_local, load_detected,
  load_files, staged_pattern,
}

-- A new session over the calls made before it.
abbrev pub session_over : List Call → Session
session_over calls = record new_session { calls = calls }

-- PUT and COPY of each file in turn.
abbrev pub local_script : String → String → List FeedFile → List Query
local_script stage run_id [] = []
local_script stage run_id (p ∷ ps) =
    script stage (local_file p) p.parent_name run_id false ++ local_script stage run_id ps

abbrev pub load_script : String → String → Detected → List Query
load_script stage run_id (local ps) = local_script stage run_id ps
load_script stage run_id (staged names) = (copy_sql, staged_pattern ∷ run_id ∷ []) ∷ []

abbrev pub AreFiles : (FeedFile → Bool) → Detected → Type 0
AreFiles is_file (local ps) = All (λ p. is_file p ≡ true) ps
AreFiles is_file (staged names) = Unit

module _ (driver : Driver) (max_retries : ℕ) where
  with_session-Yields :
      {A : Type 0} (P : Type 0) (body : Action A) (calls : List Call)
      → ((s : Session) → Yields (λ _. P) (body s).0)
      → Yields (λ _. P) (with_session driver max_retries body calls).0
  unfolding with_session
  with_session-Yields P body calls h =
      continue-Yields P (connect driver max_retries (session_over calls)) (λ c. body) λ c. h

  close-statements :
      (s : Session) → statements (close driver max_retries s).calls ≡ statements s.calls
  unfolding close
  close-statements s = elim (Option-cases (open_connection driver max_retries s)) [
    | inl e ↦ rw (e, close) refl
    | inr (c, e) ↦ rw (e, close) refl
  ]

  with_session-HasSent :
      {A : Type 0} (queries : List Query) (body : Action A) (calls : List Call)
      → Sends queries body
      → HasSent queries (session_over calls) (
        (with_session driver max_retries body calls).0,
        session_over (with_session driver max_retries body calls).1,
      )
  unfolding with_session
  with_session-HasSent queries body calls h =
      let s = session_over calls in
      let out = continue (connect driver max_retries s) (λ c. body) in
      moved-HasSent queries s out (session_over (close driver max_retries out.1).calls)
        (close-statements out.1)
        (>>=-Sends [] queries (connect driver max_retries) (λ c. body)
          (connect-Sends driver max_retries) (λ c. h) s)

  module _ (loads : String → Result Value) (stage : String) (is_file : FeedFile → Bool)
      (run_id : String) where
    load_local-Sends :
        (ps : List FeedFile)
        → Sends
            (local_script stage run_id ps)
            (load_local driver max_retries loads stage is_file run_id ps)
    unfolding load_local
    load_local-Sends [] s = return-Sends {A = List Members} (ok []) s
    load_local-Sends (p ∷ ps) s = elim (Bool-cases (is_file p)) [
      | inr f ↦
          rw (f, load_local)
            (err-Sends (List Members) (local_script stage run_id (p ∷ ps)) airflow_fail s)
      | inl t ↦
          rw (t, load_local)
            (>>=-Sends (script stage (local_file p) p.parent_name run_id false)
              (local_script stage run_id ps)
              (load_file loads driver max_retries stage (local_file p) p.parent_name run_id false)
              (λ r t.
                continue (load_local driver max_retries loads stage is_file run_id ps t)
                  λ rs. return (ok (r ∷ rs)))
              (load_file-Sends loads driver max_retries stage (local_file p) p.parent_name run_id
                false)
              (λ r t.
                map-HasSent (local_script stage run_id ps) t (λ rs. r ∷ rs)
                  (load_local driver max_retries loads stage is_file run_id ps t)
                  (load_local-Sends ps t))
              s)
    ]

    load_detected-Sends :
        (detected : Detected)
        → Sends
            (load_script stage run_id detected)
            (load_detected driver max_retries loads stage is_file run_id detected)
    unfolding load_detected
    load_detected-Sends (local ps) s = load_local-Sends ps s
    load_detected-Sends (staged names) s =
        map-HasSent ((copy_sql, staged_pattern ∷ run_id ∷ []) ∷ []) s (λ r. r ∷ [])
          (copy_into_raw loads driver max_retries stage staged_pattern run_id s)
          (copy_into_raw-Sends loads driver max_retries stage staged_pattern run_id s)

    load_local-AreFiles :
        (ps : List FeedFile) (s : Session)
        → Yields
            (λ _. AreFiles is_file (local ps))
            (load_local driver max_retries loads stage is_file run_id ps s).0
    unfolding load_local
    load_local-AreFiles [] s = tt
    load_local-AreFiles (p ∷ ps) s = elim (Bool-cases (is_file p)) [
      | inr f ↦ rw (f, load_local) tt
      | inl t ↦
          rw (t, load_local)
            (continue-Yields ((true ≡ true) × AreFiles is_file (local ps))
              (load_file loads driver max_retries stage (local_file p) p.parent_name run_id false s)
              (λ r u.
                continue (load_local driver max_retries loads stage is_file run_id ps u)
                  λ rs. return (ok (r ∷ rs)))
              λ r u.
                map-Yields (All (λ p. is_file p ≡ true) ps) (λ rs. r ∷ rs) refl
                  (load_local driver max_retries loads stage is_file run_id ps u)
                  (load_local-AreFiles ps u))
    ]

    load_detected-AreFiles :
        (detected : Detected) (s : Session)
        → Yields
            (λ _. AreFiles is_file detected)
            (load_detected driver max_retries loads stage is_file run_id detected s).0
    unfolding load_detected
    load_detected-AreFiles (local ps) s = load_local-AreFiles ps s
    load_detected-AreFiles (staged names) s = Yields-any _

    -- `load_files` sends PUT and COPY for each file of this machine in turn, in the order in which
    -- they were found, or one COPY for what is on the stage, and it never drains; if it raises then
    -- it has sent a first part of this and nothing else. If it returns then each file of this
    -- machine was there.
    pub load_files-Sends :
        (int : String → Result ℕ) (detected : Detected) (calls : List Call)
        → HasSent (load_script stage run_id detected) (session_over calls) (
          (load_files driver max_retries loads stage int is_file run_id detected calls).0,
          session_over
              (load_files driver max_retries loads stage int is_file run_id detected calls).1,
        )
          × Yields
              (λ _. AreFiles is_file detected)
              (load_files driver max_retries loads stage int is_file run_id detected calls).0
    unfolding load_files
    load_files-Sends int detected calls =
        let body = load_detected driver max_retries loads stage is_file run_id detected in
        let out = with_session driver max_retries body calls in
        (
          then-HasSent (load_script stage run_id detected) (session_over calls) (session_over out.1)
              out.0 (summary int)
              (with_session-HasSent (load_script stage run_id detected) body calls
                (load_detected-Sends detected)),
          Yields-bind (λ _. AreFiles is_file detected) (λ _. AreFiles is_file detected) out.0
              (summary int)
              (with_session-Yields (AreFiles is_file detected) body calls
                (load_detected-AreFiles detected))
              λ a h. Yields-const (summary int a) h,
        )
