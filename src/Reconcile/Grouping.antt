-- ===== src/Reconcile/Grouping.antt =====
-- The grouping by key in `Reconciler.reconcile` of ingestion/src/trade_sim/reconcile.py, and the
-- totals of the result.
use snowflake_trade_pipeline.Prelude.{
  ◌+◌, String, ◌≡◌, refl, inl, inr, List, [], ◌∷◌, Bool-cases, arith, ◌==◌, pair_eq, string_eq,
  nat_eq, keep, length, length-append,
}
use snowflake_trade_pipeline.Prelude.Dict.{Dict, lookup, insert}
use snowflake_trade_pipeline.Schema.{ExpectedVerdict}
use snowflake_trade_pipeline.Arbitration.{Key}
use snowflake_trade_pipeline.Arbitration.Manifest.{BatchManifest}
use snowflake_trade_pipeline.Reconcile.{
  Row, ReconciliationResult, is_expected, expectation_key, filed, file_under, expected_by_key,
  actual_by_key, no_counts, reconcile,
}
use snowflake_trade_pipeline.Reconcile.Counts.{by_verdict, by_codes, answer_groups-IsCounted}

filed-file_under {ℓ} :
    {V : Type ℓ} (d : Dict Key (List V)) (k : Key) (v : V) → filed (file_under d k v) ≡ 1 + filed d
unfolding filed file_under lookup insert
filed-file_under [] k v = refl
filed-file_under ((j, vs) ∷ d) k v = elim (Bool-cases (j == k)) [
  | inl e ↦ rw e (omega (arith, length-append vs (v ∷ [])))
  | inr e ↦ rw e (omega (arith, filed-file_under d k v))
]

filed-expected :
    (d : Dict Key (List ExpectedVerdict)) (vs : List ExpectedVerdict)
    → filed (expected_by_key d vs) ≡ length vs + filed d
unfolding expected_by_key
filed-expected d [] = omega arith
filed-expected d (v ∷ vs) = omega (
  arith,
  filed-expected (file_under d (expectation_key v) v) vs,
  filed-file_under d (expectation_key v) v,
)

-- Every expectation of the manifest that names a trade and whose fault is matchable is counted,
-- once by its verdict and once by its rule codes.
abbrev pub IsTotal : BatchManifest → ReconciliationResult → Type 0
IsTotal m r =
    (r.events_expected ≡ length (keep is_expected m.verdicts))
    × (by_verdict r.counters ≡ r.events_expected)
    × (by_codes r.counters ≡ r.events_expected)

-- The expectations are those of the manifest that name a trade and whose fault is matchable, and
-- the grouping loses none. The matches, the mismatches and the missing events make them up, by
-- verdict as well as by rule codes.
pub reconcile-IsTotal :
    (json_codes : String → List String) (m : BatchManifest) (rows : List Row)
    → IsTotal m (reconcile json_codes m rows)
unfolding reconcile filed
reconcile-IsTotal json_codes m rows =
    let expected = expected_by_key [] (keep is_expected m.verdicts) in
    let (a, b) = answer_groups-IsCounted json_codes (actual_by_key [] rows) expected no_counts in
    (
      omega (arith, filed-expected [] (keep is_expected m.verdicts)),
      omega (arith, a),
      omega (arith, b),
    )
