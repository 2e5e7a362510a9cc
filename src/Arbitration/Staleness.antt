-- ===== src/Arbitration/Staleness.antt =====
-- The staleness rule of `_settle_version_arbitration` in ingestion/src/trade_sim/generator.py: the
-- mark that an event is measured against, and what the measure changes.
use snowflake_trade_pipeline.Prelude.{
  ℕ, ◌≤◌, ◌<◌, String, ◌≡◌, refl, ap, ◌⊎◌, inl, inr, Bool, true, false, not, ◌&&◌, ◌||◌, List, [],
  ◌∷◌, Option, none, some, arith, ltb, max, ◌==◌, ==_sound, string_eq, keep, contains, All,
  All-weaken, Bool-cases, eq_iff,
}
use snowflake_trade_pipeline.Prelude.Dict.{Dict}
use snowflake_trade_pipeline.Schema.{GeneratedEvent}
use snowflake_trade_pipeline.Schema.Codecs.{Codec}
use snowflake_trade_pipeline.Arbitration.{
  Winners, high_mark, or_zero, clear_stale, mark_for, restale, restale_as,
}

-- Some winner is earlier than the arrival and has the version.
unfoldable pub won_before : ℕ → ℕ → List (ℕ × ℕ) → Bool
won_before arrived_at v [] = false
won_before arrived_at v (w ∷ ws) =
    (ltb w.0 arrived_at && not (ltb w.1 v || ltb v w.1)) || won_before arrived_at v ws

-- The least mark above the stored version and above every version that won before the arrival.
pub record IsMark (stored arrived_at : ℕ) (ws : List (ℕ × ℕ)) (m : ℕ) : Type 0 where
  pub above_stored : stored ≤ m
  pub above_winners : All (λ w. w.0 < arrived_at → w.1 ≤ m) ws
  pub attained : (m ≡ stored) ⊎ (won_before arrived_at m ws ≡ true)

-- The mark is at least the stored version and at least every version whose winner is earlier than
-- the arrival, and it is one of these.
pub high_mark-IsMark :
    (stored arrived_at : ℕ) (ws : List (ℕ × ℕ))
    → IsMark stored arrived_at ws (high_mark stored arrived_at ws)
unfolding high_mark won_before
high_mark-IsMark stored t [] = record {
  above_stored = omega arith;
  above_winners = tt;
  attained = inl refl;
}
high_mark-IsMark stored t ((a, v) ∷ ws) =
    let rest = high_mark-IsMark stored t ws in
    let m = high_mark stored t ws in
    elim (Bool-cases (ltb a t)) [
      | inl c ↦ rw c record {
        above_stored = omega (arith, rest.above_stored);
        above_winners = (
          λ h. omega arith,
          All-weaken (λ w. w.0 < t → w.1 ≤ m) (λ w. w.0 < t → w.1 ≤ max v m) ws
              (λ w f h. omega (arith, f h)) rest.above_winners,
        );
        attained = elim (Bool-cases (ltb m v)) [
          | inl d ↦ inr (ground (arith, d))
          | inr d ↦
              let same : max v m ≡ m = ground (arith, d) in
              rw same (elim rest.attained [ inl e ↦ inl e | inr e ↦ inr (ground (arith, e)) ])
        ];
      }
      | inr c ↦ rw c record {
        above_stored = rest.above_stored;
        above_winners = (λ h. absurd (ground (arith, c, h)), rest.above_winners);
        attained = elim rest.attained [ inl e ↦ inl e | inr e ↦ inr (ground (arith, c, e)) ];
      }
    ]

contains-keep :
    (cs : List String) (c : String)
    → contains (keep (λ d. not (d == "RJ001")) cs) c ≡ (contains cs c && not (c == "RJ001"))
unfolding contains keep
contains-keep [] c = refl
contains-keep (d ∷ cs) c =
    ground (arith, eq_iff d "RJ001", eq_iff c "RJ001", eq_iff d c, contains-keep cs c)

contains-same : (cs : List String) (c d : String) → (c == d) ≡ true → contains cs c ≡ contains cs d
contains-same cs c d h = ap (λ x. contains cs x) (==_sound c d h)

module _ (codec : Codec) (winners : Winners) (stored : Dict String ℕ) where
  -- The event belongs to a trade, and its version is not below the mark.
  unfoldable pub is_in_order : GeneratedEvent → Option String → Bool
  is_in_order e none = false
  is_in_order e (some trade_id) =
      not (ltb (or_zero e.trade_version) (mark_for codec winners stored trade_id e))

  restale_as-codes :
      (e : GeneratedEvent) (o : Option String) (c : String)
      → contains (restale_as codec winners stored e o).expected_rule_codes c
        ≡ (contains e.expected_rule_codes c && not (c == "RJ001" && is_in_order e o))
  unfolding restale_as is_in_order clear_stale
  restale_as-codes e none c = ground arith
  restale_as-codes e (some i) c =
      ground (
        arith,
        contains-keep e.expected_rule_codes c,
        contains-same e.expected_rule_codes c "RJ001",
      )

  -- The rule clears RJ001 of the events whose version is not below the mark of their trade, and
  -- leaves every other code and every other event's codes as they are.
  pub restale-codes :
      (e : GeneratedEvent) (c : String)
      → contains (restale codec winners stored e).expected_rule_codes c
        ≡ (contains e.expected_rule_codes c && not (c == "RJ001" && is_in_order e e.trade_id))
  unfolding restale
  restale-codes e c = restale_as-codes e e.trade_id c
