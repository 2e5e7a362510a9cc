-- ===== src/SqlRunner/Attempts.antt =====
-- The loop of scripts/run_sql.py tries every statement.
use snowflake_trade_pipeline.Prelude.{
  ℕ, suc, String, ◌≡◌, refl, sym, ap, ◌∙◌, ◌↔◌, inl, inr, false, some, List, [], ◌∷◌, ◌++◌, map,
  length, All, arith,
}
use mathlib.Core.List.{append_assoc, append-nil}
use snowflake_trade_pipeline.Result.{Result, ok, err, Returns}
use snowflake_trade_pipeline.Session.{
  Call, sends, ResultRow, Driver, Session, execute, run_statement, rows_of,
}
use snowflake_trade_pipeline.Session.Retries.{connect-open}
use snowflake_trade_pipeline.Session.Sending.{statements, Answer-cases, open_connection-some}
use snowflake_trade_pipeline.SqlRunner.{run_all, exit_code_of}

module _ (driver : Driver) (max_retries c : ℕ)
    (stays_open : (calls : List Call) → driver.is_closed calls c ≡ false) where
  execute-sent :
      (q : String) (s : Session)
      → s.connection ≡ some c
      → ((execute driver max_retries q [] s).1.calls ≡ sends (q, []) ∷ s.calls)
        × ((execute driver max_retries q [] s).1.connection ≡ s.connection)
  unfolding execute run_statement rows_of
  execute-sent q s on =
      let up = open_connection-some driver max_retries s c on (stays_open s.calls) in
      elim (Answer-cases (driver.answer (sends (q, []) ∷ s.calls))) [
        | inl (id, first, more, e) ↦
            rw (connect-open driver max_retries s c up, e, run_statement) (refl, refl)
        | inr (x, e) ↦ rw (connect-open driver max_retries s c up, e, run_statement) (refl, refl)
      ]

  exit_code_of-zero :
      (rs : List (Result (List ResultRow))) → (exit_code_of rs ≡ 0) ↔ All (Returns (λ _. Unit)) rs
  unfolding exit_code_of
  exit_code_of-zero [] = ((λ _. tt), (λ _. refl))
  exit_code_of-zero (err e ∷ rs) = ((λ h. absurd (omega arith)), (λ h. absurd (h.0)))
  exit_code_of-zero (ok rows ∷ rs) =
      ((λ h. (tt, (exit_code_of-zero rs).0 h)), (λ h. (exit_code_of-zero rs).1 h.1))

  -- Over a connection that stays open every statement is sent, in order and whatever the answers to
  -- those before it, each has a result, and the exit code is 0 exactly if none raised.
  pub run_all-AreTried :
      (qs : List String) (s : Session)
      → s.connection ≡ some c
      → let run = run_all driver max_retries qs s in
        (statements run.1.calls ≡ statements s.calls ++ map (λ q. (q, [])) qs)
        × (length run.0 ≡ length qs)
        × ((exit_code_of run.0 ≡ 0) ↔ All (Returns (λ _. Unit)) run.0)
  unfolding run_all
  run_all-AreTried [] s on = (sym (append-nil (statements s.calls)), refl, exit_code_of-zero [])
  run_all-AreTried (q ∷ qs) s on =
      let t = (execute driver max_retries q [] s).1 in
      let (calls, kept) = execute-sent q s on in
      let (sent, tried, code) = run_all-AreTried qs t (kept ∙ on) in
      let later = map (λ x. (x, [])) qs in
      (
        sent
            ∙ ap (λ x. statements x ++ later) calls
            ∙ append_assoc (statements s.calls) ((q, []) ∷ []) later,
        ap suc tried,
        exit_code_of-zero (run_all driver max_retries (q ∷ qs) s).0,
      )
