-- ===== src/Tests/Verdicts.antt =====
-- A reconciliation of two arrivals of one trade version with the rows of the warehouse.
use snowflake_trade_pipeline.Prelude.{
  String, ◌≡◌, refl, true, false, List, [], ◌∷◌, some, none, keep, contains,
}
use snowflake_trade_pipeline.Prelude.Dict.{lookup, insert}
use snowflake_trade_pipeline.Schema.{ExpectedVerdict}
use snowflake_trade_pipeline.Arbitration.Manifest.{BatchManifest}
use snowflake_trade_pipeline.Reconcile.{
  Row, is_expected, expected_by_key, actual_by_key, claim_row, passed, reconcile, answer_groups,
  answer_all, answer, pop_first, file_row, file_under, row_key, has_verdict, has_codes,
  compare_codes, compare_verdict, count_missing, issubset, rule_codes, expectation_key,
}
use snowflake_trade_pipeline.Result.{ok, Yields}
use snowflake_trade_pipeline.Reconcile.Fetch.{ManifestFile, find_manifests}
use snowflake_trade_pipeline.Gates.Verification.{IsSound, reconcile_task, reconcile_task-IsSound}
use snowflake_trade_pipeline.Reconcile.Claims.{IsClaimed, claim_row-IsClaimed}
use snowflake_trade_pipeline.Reconcile.Grouping.{IsTotal, reconcile-IsTotal}
use snowflake_trade_pipeline.Reconcile.Answers.{AreAnswered, reconcile-AreAnswered}

-- A column that holds one code is its own text here.
abbrev json_codes : String → List String
json_codes s = s ∷ []

abbrev expectation : String → List String → ExpectedVerdict
expectation verdict codes = record {
  trade_id = some "TRD-000000001";
  trade_version = some 2;
  action = some "AMEND";
  injected_fault = none;
  expected_verdict = verdict;
  expected_rule_codes = codes;
}

abbrev row : String → String → Row
row verdict codes = record {
  trade_id = some "TRD-000000001";
  trade_version = some 2;
  verdict = verdict;
  violated_rule_codes = some codes;
}

abbrev manifest : BatchManifest
manifest = record {
  batch_ref = "B1";
  total_events = 2;
  expected_accepted = 1;
  expected_rejected = 0;
  expected_superseded = 1;
  fault_counts = [];
  expected_rule_code_counts = ("RJ009", 1) ∷ [];
  verdicts = expectation "SUPERSEDED" ("RJ009" ∷ []) ∷ expectation "ACCEPTED" [] ∷ [];
}

abbrev rows : List Row
rows = row "ACCEPTED" "" ∷ row "SUPERSEDED" "RJ009" ∷ []

manifest_passes : passed (reconcile json_codes manifest rows) ≡ true
unfolding passed reconcile answer_groups answer_all answer claim_row pop_first actual_by_key
    expected_by_key file_row file_under row_key has_verdict has_codes contains compare_codes
    compare_verdict count_missing issubset rule_codes is_expected expectation_key keep lookup insert
manifest_passes = refl

claim_row-IsClaimed_example :
    IsClaimed json_codes rows
      (expectation "SUPERSEDED" ("RJ009" ∷ []))
      (claim_row json_codes rows (expectation "SUPERSEDED" ("RJ009" ∷ [])))
claim_row-IsClaimed_example =
    claim_row-IsClaimed json_codes rows (expectation "SUPERSEDED" ("RJ009" ∷ []))

reconcile-IsTotal_example : IsTotal manifest (reconcile json_codes manifest rows)
reconcile-IsTotal_example = reconcile-IsTotal json_codes manifest rows

reconcile-AreAnswered_example :
    AreAnswered json_codes
      (actual_by_key [] rows)
      (expected_by_key [] (keep is_expected manifest.verdicts))
reconcile-AreAnswered_example = reconcile-AreAnswered json_codes manifest rows manifest_passes

abbrev manifest_file : ManifestFile
manifest_file = record { name = "trades_B1.manifest.json"; mtime = 7 }

reconcile_task-IsSound_example :
    Yields
      (IsSound json_codes
        (λ ref name. true)
        (λ f. manifest)
        (λ m. ok rows)
        (find_manifests (λ ref name. true) true (manifest_file ∷ []) (some "B1")))
      (reconcile_task json_codes
        (λ ref name. true)
        (λ f. manifest)
        (λ m. ok rows)
        true
        false
        true
        (manifest_file ∷ [])
        (some "B1"))
reconcile_task-IsSound_example =
    reconcile_task-IsSound json_codes (λ ref name. true) (λ f. manifest) (λ m. ok rows) true false
      true (manifest_file ∷ []) "B1"
