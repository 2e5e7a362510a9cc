-- ===== src/Reconcile/Answers.antt =====
-- What a passed `Reconciler.reconcile` of ingestion/src/trade_sim/reconcile.py promises.
use mathlib.Core.List.{Perm}
use snowflake_trade_pipeline.Prelude.{
  ℕ, ◌+◌, ◌≤◌, String, ◌≡◌, true, List, [], ◌∷◌, Option, none, some, arith, All, keep, pair_eq,
  string_eq, nat_eq, inl, inr, Bool-cases,
}
use snowflake_trade_pipeline.Prelude.Dict.{Dict, lookup}
use snowflake_trade_pipeline.Schema.{ExpectedVerdict}
use snowflake_trade_pipeline.Arbitration.{Key, or_empty}
use snowflake_trade_pipeline.Arbitration.Manifest.{BatchManifest}
use snowflake_trade_pipeline.Reconcile.{
  Row, Counters, no_counts, is_expected, expected_by_key, actual_by_key, claim_row, has_verdict,
  has_codes, count_missing, compare_verdict, compare_codes, answer, answer_all, answer_groups,
  passed, reconcile,
}
use snowflake_trade_pipeline.Reconcile.Claims.{is_answer, IsClaimed, claim_row-IsClaimed}

abbrev wrong : Counters → ℕ
wrong c = c.verdict_mismatches + c.rule_mismatches + c.missing

module _ (json_codes : String → List String) where
  -- Every expectation of the list has a row of its own in the pool, with the verdict expected and
  -- at least the rule codes expected.
  abbrev pub IsAnswered : List Row → List ExpectedVerdict → Type 0
  IsAnswered rows [] = Unit
  IsAnswered rows (x ∷ xs) =
      (r : Row) × (rest : List Row) × Perm (r ∷ rest) rows
      × (is_answer json_codes x r ≡ true)
      × IsAnswered rest xs

  -- The counters got no worse, and if they stayed as they were, then `P`.
  abbrev IsFaultless : Type 0 → Counters → Counters → Type 0
  IsFaultless P c d = (wrong c ≤ wrong d) × (wrong d ≡ wrong c → P)

  answer-IsFaultless :
      (rows : List Row) (x : ExpectedVerdict) (xs : List ExpectedVerdict) (c : Counters)
      (o : Option (Row × List Row))
      → IsClaimed json_codes rows x o
      → IsFaultless
          (IsAnswered (answer json_codes rows x o c).0 xs → IsAnswered rows (x ∷ xs))
          c
          (answer json_codes rows x o c).1
  unfolding answer count_missing compare_verdict compare_codes is_answer
  answer-IsFaultless rows x xs c none h = (omega arith, λ e. absurd (omega (arith, e)))
  answer-IsFaultless rows x xs c (some (r, rest)) h =
      elim (Bool-cases (has_verdict json_codes x r)) [
        | inl v ↦ elim (Bool-cases (has_codes json_codes x r)) [
          | inl w ↦ rw (v, w) (omega arith, λ e a. (r, rest, h.only_one, ground (arith, v, w), a))
          | inr w ↦ rw (v, w) (omega arith, λ e. absurd (omega (arith, e)))
        ]
        | inr v ↦ elim (Bool-cases (has_codes json_codes x r)) [
          | inl w ↦ rw (v, w) (omega arith, λ e. absurd (omega (arith, e)))
          | inr w ↦ rw (v, w) (omega arith, λ e. absurd (omega (arith, e)))
        ]
      ]

  answer_all-IsFaultless :
      (rows : List Row) (xs : List ExpectedVerdict) (c : Counters)
      → IsFaultless (IsAnswered rows xs) c (answer_all json_codes rows xs c)
  unfolding answer_all
  answer_all-IsFaultless rows [] c = (omega arith, λ e. tt)
  answer_all-IsFaultless rows (x ∷ xs) c =
      let next = answer json_codes rows x (claim_row json_codes rows x) c in
      let (a, f) =
        answer-IsFaultless rows x xs c (claim_row json_codes rows x)
          (claim_row-IsClaimed json_codes rows x) in
      let (b, g) = answer_all-IsFaultless next.0 xs next.1 in
      (omega (arith, a, b), λ e. f (omega (arith, a, b, e)) (g (omega (arith, a, b, e))))

  -- Every group is answered by the rows of its key.
  abbrev pub AreAnswered : Dict Key (List Row) → Dict Key (List ExpectedVerdict) → Type 0
  AreAnswered actual = All (λ p. IsAnswered (or_empty (lookup actual p.0)) p.1)

  answer_groups-IsFaultless :
      (actual : Dict Key (List Row)) (d : Dict Key (List ExpectedVerdict)) (c : Counters)
      → IsFaultless (AreAnswered actual d) c (answer_groups json_codes actual d c)
  unfolding answer_groups
  answer_groups-IsFaultless actual [] c = (omega arith, λ e. tt)
  answer_groups-IsFaultless actual ((k, xs) ∷ d) c =
      let rows = or_empty (lookup actual k) in
      let (a, f) = answer_all-IsFaultless rows xs c in
      let (b, g) = answer_groups-IsFaultless actual d (answer_all json_codes rows xs c) in
      (omega (arith, a, b), λ e. (f (omega (arith, a, b, e)), g (omega (arith, a, b, e))))

  -- If a reconciliation has passed, then under every key each expectation has a row of its own,
  -- no two the same one, with the verdict expected and at least the rule codes expected.
  pub reconcile-AreAnswered :
      (m : BatchManifest) (rows : List Row)
      → passed (reconcile json_codes m rows) ≡ true
      → AreAnswered (actual_by_key [] rows) (expected_by_key [] (keep is_expected m.verdicts))
  unfolding reconcile passed
  reconcile-AreAnswered m rows h =
      let expected = expected_by_key [] (keep is_expected m.verdicts) in
      let all = answer_groups-IsFaultless (actual_by_key [] rows) expected no_counts in
      all.1 (ground (arith, h))
