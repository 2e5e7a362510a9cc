-- ===== src/Reconcile/Counts.antt =====
-- The counters of `Reconciler.reconcile` in ingestion/src/trade_sim/reconcile.py: every
-- expectation is counted once.
use snowflake_trade_pipeline.Prelude.{
  ℕ, ◌+◌, String, ◌≡◌, List, [], ◌∷◌, Option, none, some, arith, length, pair_eq, string_eq, nat_eq,
}
use snowflake_trade_pipeline.Prelude.Dict.{Dict, lookup}
use snowflake_trade_pipeline.Schema.{ExpectedVerdict}
use snowflake_trade_pipeline.Arbitration.{Key, or_empty}
use snowflake_trade_pipeline.Reconcile.{
  Row, Counters, filed, claim_row, count_missing, compare_verdict, compare_codes, answer,
  answer_all, answer_groups,
}

abbrev pub by_verdict : Counters → ℕ
by_verdict c = c.verdict_matches + c.verdict_mismatches + c.missing

abbrev pub by_codes : Counters → ℕ
by_codes c = c.rule_matches + c.rule_mismatches + c.missing

-- `n` expectations later.
abbrev pub IsCounted : ℕ → Counters → Counters → Type 0
IsCounted n c d = (by_verdict d ≡ n + by_verdict c) × (by_codes d ≡ n + by_codes c)

module _ (json_codes : String → List String) where
  answer-IsCounted :
      (rows : List Row) (x : ExpectedVerdict) (o : Option (Row × List Row)) (c : Counters)
      → IsCounted 1 c (answer json_codes rows x o c).1
  unfolding answer count_missing compare_verdict compare_codes
  answer-IsCounted rows x none c = (omega arith, omega arith)
  answer-IsCounted rows x (some (r, rest)) c = (ground arith, ground arith)

  answer_all-IsCounted :
      (rows : List Row) (xs : List ExpectedVerdict) (c : Counters)
      → IsCounted (length xs) c (answer_all json_codes rows xs c)
  unfolding answer_all
  answer_all-IsCounted rows [] c = (omega arith, omega arith)
  answer_all-IsCounted rows (x ∷ xs) c =
      let next = answer json_codes rows x (claim_row json_codes rows x) c in
      let (a, b) = answer-IsCounted rows x (claim_row json_codes rows x) c in
      let (v, w) = answer_all-IsCounted next.0 xs next.1 in
      (omega (arith, a, v), omega (arith, b, w))

  pub answer_groups-IsCounted :
      (actual : Dict Key (List Row)) (d : Dict Key (List ExpectedVerdict)) (c : Counters)
      → IsCounted (filed d) c (answer_groups json_codes actual d c)
  unfolding answer_groups filed
  answer_groups-IsCounted actual [] c = (omega arith, omega arith)
  answer_groups-IsCounted actual ((k, xs) ∷ d) c =
      let rows = or_empty (lookup actual k) in
      let (a, b) = answer_all-IsCounted rows xs c in
      let (v, w) = answer_groups-IsCounted actual d (answer_all json_codes rows xs c) in
      (omega (arith, a, v), omega (arith, b, w))
