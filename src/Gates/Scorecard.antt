-- ===== src/Gates/Scorecard.antt =====
-- What the last gate of airflow/dags/trade_pipeline.py has read if it passes: a scorecard on which
-- nothing is overdue and which is not red.
use snowflake_trade_pipeline.Prelude.{
  ℕ, ◌≡◌, refl, ap, ◌∙◌, inl, inr, String, true, false, Option, List, [], ◌∷◌, ◌==◌, string_eq,
}
use snowflake_trade_pipeline.Prelude.Dict.{lookup}
use snowflake_trade_pipeline.Result.{Result, ok, Result-cases}
use snowflake_trade_pipeline.Settings.{SnowflakeSettings}
use snowflake_trade_pipeline.Session.{Value, Call, ResultRow, Driver}
use snowflake_trade_pipeline.Gates.{Outcome, gate_publish_readiness}
use snowflake_trade_pipeline.Gates.Publishing.{readiness-lem}
use snowflake_trade_pipeline.Gates.Ingest.{int_or_zero}
use snowflake_trade_pipeline.Gates.Readings.{
  judge_scorecard, scorecard_of, run_publish_readiness, raises,
}

module _ (int : String → Result ℕ) (driver : Driver) (max_retries : ℕ) where
  judge-passed :
      (shown : Option Value → String) (rows : List ResultRow) (o : Outcome)
      → judge_scorecard int shown rows ≡ ok o
      → o.raised ≡ false
      → (scorecard : ResultRow) × (rest : List ResultRow) × (rows ≡ scorecard ∷ rest)
        × (int_or_zero int (lookup scorecard "OVERDUE_EXPIRY_TRADES") ≡ ok 0)
        × ((shown (lookup scorecard "OVERALL_STATUS") == "RED") ≡ false)
  unfolding judge_scorecard
  judge-passed shown [] o e calm =
      absurd (let raised : true ≡ false = ap raises e ∙ calm in cc raised)
  judge-passed shown (row ∷ rest) o e calm =
      let status = shown (lookup row "OVERALL_STATUS") in
      elim (Result-cases (int_or_zero int (lookup row "OVERDUE_EXPIRY_TRADES"))) [
        | inr (x, f) ↦ absurd (
            let raised : true ≡ false = ap raises (rw (f, judge_scorecard) at e) ∙ calm in
            cc raised)
        | inl (n, f) ↦
            let same : ok (gate_publish_readiness status n) ≡ ok o = rw (f, judge_scorecard) at e in
            let quiet : (gate_publish_readiness status n).raised ≡ false = ap raises same ∙ calm in
            let (none_overdue, not_red) = readiness-lem status n quiet in
            (row, rest, refl, f ∙ ap (λ k. ok k) none_overdue, not_red)
      ]

  -- If the last gate returns and does not raise, then the warehouse has answered a scorecard on
  -- which no matured trade is still live and whose status is not RED.
  pub run_publish_readiness-passed :
      (shown : Option Value → String) (settings : SnowflakeSettings) (calls : List Call)
      (o : Outcome)
      → (run_publish_readiness int driver max_retries shown settings calls).0 ≡ ok o
      → o.raised ≡ false
      → (scorecard : ResultRow) × (rows : List ResultRow) × ((scorecard_of int driver max_retries
            settings calls).0
          ≡ ok (scorecard ∷ rows))
        × (int_or_zero int (lookup scorecard "OVERDUE_EXPIRY_TRADES") ≡ ok 0)
        × ((shown (lookup scorecard "OVERALL_STATUS") == "RED") ≡ false)
  unfolding run_publish_readiness judge_scorecard
  run_publish_readiness-passed shown settings calls o e calm =
      elim (Result-cases (scorecard_of int driver max_retries settings calls).0) [
        | inr (x, f) ↦ absurd (
            let raised : true ≡ false = ap raises (rw (f, run_publish_readiness) at e) ∙ calm in
            cc raised)
        | inl (rows, f) ↦
            let judged : judge_scorecard int shown rows ≡ ok o =
              rw (f, run_publish_readiness) at e in
            let (row, rest, split, counted, status) = judge-passed shown rows o judged calm in
            (row, rest, f ∙ ap (λ r. ok r) split, counted, status)
      ]
