-- ===== src/Arbitration/Manifest.antt =====
-- The manifest that `build_manifest` of ingestion/src/trade_sim/generator.py counts from the settled
-- batch.
use snowflake_trade_pipeline.Prelude.{
  ℕ, ◌+◌, String, List, [], ◌∷◌, ◌++◌, map, none, some, if◌then◌else◌, ◌==◌, nat_eq, string_eq,
  pair_eq, count_if, length,
}
use snowflake_trade_pipeline.Prelude.Dict.{Dict, lookup, insert}
use snowflake_trade_pipeline.Prelude.Sorting.{sort_keys}
use snowflake_trade_pipeline.Schema.{GeneratedEvent, ExpectedVerdict}
use snowflake_trade_pipeline.Schema.Codecs.{Codec}
use snowflake_trade_pipeline.Arbitration.{or_zero, settle}

-- `ExpectedVerdict(…)`, one row of the manifest.
unfoldable pub expected_verdict : GeneratedEvent → ExpectedVerdict
expected_verdict e = record {
  trade_id = e.trade_id;
  trade_version = e.trade_version;
  action = e.action;
  injected_fault = e.injected_fault;
  expected_verdict = e.expected_verdict;
  expected_rule_codes = e.expected_rule_codes;
}

unfoldable pub count_up : Dict String ℕ → String → Dict String ℕ
count_up d k = insert d k (or_zero (lookup d k) + 1)

-- `d[k] = d.get(k, 0) + 1` for every key
unfoldable pub count_keys : Dict String ℕ → List String → Dict String ℕ
unfolding count_up
count_keys d [] = d
count_keys d (k ∷ ks) = count_keys (count_up d k) ks

-- The faults injected, without the empty one, and the rule codes, event by event.
unfoldable pub faults_of : List GeneratedEvent → List String
faults_of [] = []
faults_of (e ∷ es) =
    let rest = faults_of es in
    elim e.injected_fault [ none ↦ rest | some f ↦ if f == "" then rest else f ∷ rest ]

unfoldable pub codes_of : List GeneratedEvent → List String
codes_of [] = []
codes_of (e ∷ es) = e.expected_rule_codes ++ codes_of es

-- The counts, the histograms and the rows of `BatchManifest`, without its other labels.
pub record BatchManifest : Type 0 where
  pub batch_ref : String
  pub total_events : ℕ
  pub expected_accepted : ℕ
  pub expected_rejected : ℕ
  pub expected_superseded : ℕ
  pub fault_counts : Dict String ℕ
  pub expected_rule_code_counts : Dict String ℕ
  pub verdicts : List ExpectedVerdict

unfoldable pub summarised : String → List GeneratedEvent → BatchManifest
summarised batch_ref events = record {
  batch_ref = batch_ref;
  total_events = length events;
  expected_accepted = count_if (λ e. e.expected_verdict == "ACCEPTED") events;
  expected_rejected = count_if (λ e. e.expected_verdict == "REJECTED") events;
  expected_superseded = count_if (λ e. e.expected_verdict == "SUPERSEDED") events;
  fault_counts = sort_keys (count_keys [] (faults_of events));
  expected_rule_code_counts = sort_keys (count_keys [] (codes_of events));
  verdicts = map expected_verdict events;
}

unfoldable pub build_manifest : Codec → List GeneratedEvent → Dict String ℕ → String → BatchManifest
build_manifest codec events stored batch_ref = summarised batch_ref (settle codec events stored)
