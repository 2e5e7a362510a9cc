-- ===== src/Reconcile.antt =====
-- ingestion/src/trade_sim/reconcile.py: the verdicts that the manifest expects against those that
-- the warehouse reached. A row of the warehouse is a record of the four columns that are read, and
-- `json.loads` of a column of rule codes is the argument `json_codes`.
pub mod Claims
pub mod Counts
pub mod Grouping
pub mod Answers
pub mod Fetch
use snowflake_trade_pipeline.Prelude.{
  ℕ, zero, suc, ◌+◌, String, Bool, true, false, not, ◌&&◌, ◌||◌, List, [], ◌∷◌, ◌++◌, map, Option,
  none, some, if◌then◌else◌, ◌==◌, nat_eq, string_eq, pair_eq, contains, keep, length, HasEquality,
}
use snowflake_trade_pipeline.Prelude.Dict.{Dict, lookup, insert}
use snowflake_trade_pipeline.Schema.{ExpectedVerdict}
use snowflake_trade_pipeline.Arbitration.{Key, or_empty, or_zero}
use snowflake_trade_pipeline.Arbitration.Manifest.{BatchManifest}

pub record Row : Type 0 where
  pub trade_id : Option String
  pub trade_version : Option ℕ
  pub verdict : String
  pub violated_rule_codes : Option String

-- The kind of a discrepancy, and the event that it is about.
pub record Discrepancy : Type 0 where
  pub kind : String
  pub trade_id : Option String
  pub trade_version : Option ℕ

-- The counters of the loop.
pub record Counters : Type 0 where
  pub verdict_matches : ℕ
  pub verdict_mismatches : ℕ
  pub rule_matches : ℕ
  pub rule_mismatches : ℕ
  pub missing : ℕ
  pub discrepancies : List Discrepancy

pub record ReconciliationResult : Type 0 where
  pub manifest_ref : String
  pub events_expected : ℕ
  pub events_found : ℕ
  pub unexpected_events : ℕ
  pub counters : Counters

abbrev pub no_counts : Counters
no_counts = record {
  verdict_matches = 0;
  verdict_mismatches = 0;
  rule_matches = 0;
  rule_mismatches = 0;
  missing = 0;
  discrepancies = [];
}

unfoldable pub passed : ReconciliationResult → Bool
passed r =
    r.counters.verdict_mismatches == 0 && r.counters.missing == 0 && r.counters.rule_mismatches == 0

-- `_UNMATCHABLE_FAULTS`
abbrev pub unmatchable_faults : List String
unmatchable_faults = "unparseable_json" ∷ "missing_trade_id" ∷ []

abbrev pub is_unmatchable : Option String → Bool
is_unmatchable none = false
is_unmatchable (some f) = contains unmatchable_faults f

abbrev pub is_some : Option String → Bool
is_some none = false
is_some (some s) = true

abbrev pub or_no_name : Option String → String
or_no_name none = "None"
or_no_name (some s) = s

-- Whether an expectation is matched with rows at all.
unfoldable pub is_expected : ExpectedVerdict → Bool
is_expected v = is_some v.trade_id && not (is_unmatchable v.injected_fault)

unfoldable pub expectation_key : ExpectedVerdict → Key
expectation_key v = (or_no_name v.trade_id, or_zero v.trade_version)

abbrev pub row_key_of : Option String → Option ℕ → Option Key
row_key_of (some i) (some v) = some (i, v)
row_key_of _ _ = none

unfoldable pub row_key : Row → Option Key
row_key r = row_key_of r.trade_id r.trade_version

-- `d[k].append(v)` of a `defaultdict(list)`
unfoldable pub file_under {ℓ} : {V : Type ℓ} → Dict Key (List V) → Key → V → Dict Key (List V)
file_under d k v = insert d k (or_empty (lookup d k) ++ v ∷ [])

unfoldable pub expected_by_key :
    Dict Key (List ExpectedVerdict) → List ExpectedVerdict → Dict Key (List ExpectedVerdict)
expected_by_key d [] = d
expected_by_key d (v ∷ vs) = expected_by_key (file_under d (expectation_key v) v) vs

unfoldable pub file_row : Dict Key (List Row) → Row → Dict Key (List Row)
file_row d r = elim (row_key r) [ none ↦ d | some k ↦ file_under d k r ]

unfoldable pub actual_by_key : Dict Key (List Row) → List Row → Dict Key (List Row)
actual_by_key d [] = d
actual_by_key d (r ∷ rs) = actual_by_key (file_row d r) rs

-- `sum(len(v) for v in d.values())`
unfoldable pub filed {ℓ} : {V : Type ℓ} → Dict Key (List V) → ℕ
filed [] = 0
filed ((k, vs) ∷ d) = length vs + filed d

-- `len(set(a) - set(b))`, of the keys of two dicts.
unfoldable pub keys_apart {ℓ κ} : {V : Type ℓ} {W : Type κ} → Dict Key V → Dict Key W → ℕ
keys_apart [] b = 0
keys_apart ((k, v) ∷ a) b = elim (lookup b k) [ none ↦ 1 | some w ↦ 0 ] + keys_apart a b

-- `a.issubset(b)`
unfoldable pub issubset : List String → List String → Bool
issubset [] ys = true
issubset (x ∷ xs) ys = contains ys x && issubset xs ys

-- The first row that passes the test is taken out of the pool.
unfoldable pub pop_first : (Row → Bool) → List Row → Option (Row × List Row)
pop_first p [] = none
pop_first p (r ∷ rs) =
    let rest = pop_first p rs in
    if p r then some (r, rs) else elim rest [ none ↦ none | some t ↦ some (t.0, r ∷ t.1) ]

abbrev pub pop_any : List Row → Option (Row × List Row)
pop_any [] = none
pop_any (r ∷ rs) = some (r, rs)

-- The first of two searches that finds something.
abbrev pub or_else : Option (Row × List Row) → Option (Row × List Row) → Option (Row × List Row)
or_else (some t) o = some t
or_else none o = o

module _ (json_codes : String → List String) where
  -- `json.loads(str(row["VIOLATED_RULE_CODES"] or "[]"))`
  unfoldable pub rule_codes : Row → List String
  rule_codes r = elim r.violated_rule_codes [
    | none ↦ json_codes "[]"
    | some s ↦ if s == "" then json_codes "[]" else json_codes s
  ]

  unfoldable pub has_verdict : ExpectedVerdict → Row → Bool
  has_verdict x r = r.verdict == x.expected_verdict

  unfoldable pub has_codes : ExpectedVerdict → Row → Bool
  has_codes x r = issubset x.expected_rule_codes (rule_codes r)

  unfoldable pub claim_row : List Row → ExpectedVerdict → Option (Row × List Row)
  claim_row rows x =
      or_else (pop_first (λ r. has_verdict x r && has_codes x r) rows)
        (or_else (pop_first (has_verdict x) rows) (pop_any rows))

  abbrev discrepancy : String → ExpectedVerdict → Discrepancy
  discrepancy kind x = record {
    kind = kind;
    trade_id = x.trade_id;
    trade_version = x.trade_version;
  }

  unfoldable pub count_missing : ExpectedVerdict → Counters → Counters
  count_missing x c = record c {
    missing = c.missing + 1;
    discrepancies = c.discrepancies ++ discrepancy "MISSING_EVENT" x ∷ [];
  }

  unfoldable pub compare_verdict : ExpectedVerdict → Row → Counters → Counters
  compare_verdict x r c =
      if has_verdict x r then record c { verdict_matches = c.verdict_matches + 1 } else record c {
        verdict_mismatches = c.verdict_mismatches + 1;
        discrepancies = c.discrepancies ++ discrepancy "WRONG_VERDICT" x ∷ [];
      }

  unfoldable pub compare_codes : ExpectedVerdict → Row → Counters → Counters
  compare_codes x r c =
      if has_codes x r then record c { rule_matches = c.rule_matches + 1 } else record c {
        rule_mismatches = c.rule_mismatches + 1;
        discrepancies = c.discrepancies ++ discrepancy "MISSING_RULE_CODE" x ∷ [];
      }

  -- The body of the inner loop, by what the expectation has claimed.
  unfoldable pub answer :
      List Row → ExpectedVerdict → Option (Row × List Row) → Counters → List Row × Counters
  answer rows x none c = (rows, count_missing x c)
  answer rows x (some (r, rest)) c = (rest, compare_codes x r (compare_verdict x r c))

  unfoldable pub answer_all : List Row → List ExpectedVerdict → Counters → Counters
  answer_all rows [] c = c
  answer_all rows (x ∷ xs) c =
      let next = answer rows x (claim_row rows x) c in answer_all next.0 xs next.1

  unfoldable pub answer_groups :
      Dict Key (List Row) → Dict Key (List ExpectedVerdict) → Counters → Counters
  answer_groups actual [] c = c
  answer_groups actual ((k, xs) ∷ d) c =
      answer_groups actual d (answer_all (or_empty (lookup actual k)) xs c)

  -- `reconcile`, after the rows were fetched.
  unfoldable pub reconcile : BatchManifest → List Row → ReconciliationResult
  reconcile manifest actual_rows =
      let expected = expected_by_key [] (keep is_expected manifest.verdicts) in
      let actual = actual_by_key [] actual_rows in
      record {
        manifest_ref = manifest.batch_ref;
        events_expected = filed expected;
        events_found = length actual_rows;
        unexpected_events = keys_apart actual expected;
        counters = answer_groups actual expected no_counts;
      }
