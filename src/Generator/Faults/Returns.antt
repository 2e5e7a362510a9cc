-- ===== src/Generator/Faults/Returns.antt =====
-- `_corrupt` never raises on a sound event, and what each fault leaves of its identity.
use snowflake_trade_pipeline.Prelude.{
  ℕ, ◌-◌, ◌*◌, ◌≤◌, String, ◌≡◌, refl, false, List, [], ◌∷◌, arith, lt→ltb, string_eq, keep,
  contains, ◌≢◌, Bool-cases, inl, inr,
}
use snowflake_trade_pipeline.Prelude.Dict.{lookup}
use snowflake_trade_pipeline.Result.{ok, Returns, Returns-value}
use snowflake_trade_pipeline.Schema.{TradeEvent, dump}
use snowflake_trade_pipeline.Schema.Codecs.{Codec, Value, text, num}
use snowflake_trade_pipeline.Reference.{
  inactive_counterparty_ids, invalid_currency_tokens, invalid_book_tokens, invalid_direction_tokens,
  unsupported_product_tokens, non_deliverable_currency_codes,
}
use snowflake_trade_pipeline.Generator.Draws.{FaultDraws, randint, randint_bounds}
use snowflake_trade_pipeline.Generator.Readable.{IsSound}
use snowflake_trade_pipeline.Generator.Fresh.{choice_ok}
use snowflake_trade_pipeline.Generator.Faults.{
  Fault, Fields, fault_expectations, codes_for_reference_token, is_blank, finish, all_faults,
  mandatory_fields, apply_fault, corrupt, days_before, over_limit, grouped_text, negated_abs,
  unparseable_json, missing_trade_id, missing_mandatory_field, unknown_counterparty,
  inactive_counterparty, invalid_currency, negative_notional, zero_notional,
  maturity_before_trade_date, settlement_before_trade_date, unknown_book, unsupported_product,
  invalid_direction, non_deliverable_physical, notional_over_limit, type_mismatch_notional,
}

-- Codes that a fault is expected to trip: some, and never the code of a stale version.
abbrev pub IsCodes : List String → Type 0
IsCodes codes = (codes ≢ []) × (contains codes "RJ001" ≡ false)

IsCodes-fault : (fault : Fault) → IsCodes (fault_expectations fault)
unfolding fault_expectations contains
IsCodes-fault unparseable_json = (λ e. cc, refl)
IsCodes-fault _ = (λ e. cc, refl)

IsCodes-token :
    (token code : String)
    → contains (code ∷ []) "RJ001" ≡ false
    → IsCodes (codes_for_reference_token token code)
unfolding codes_for_reference_token contains
IsCodes-token token code h = elim (Bool-cases (is_blank token)) [
  | inl c ↦ rw c (λ e. cc, refl)
  | inr c ↦ rw c (λ e. cc, h)
]

module _ (codec : Codec) (event : TradeEvent) (sound : IsSound event) where
  days_before_lem :
      (days : ℕ)
      → days ≤ 30
      → days_before codec (lookup (dump codec event) "trade_date") days
        ≡ ok (text (codec.date_isoformat (event.trade_date - days)))
  unfolding days_before lookup dump
  days_before_lem days h = rw (
    codec.date_fromisoformat-isoformat event.trade_date,
    lt→ltb days event.trade_date (omega (arith, sound.dated)),
  )

  over_limit_ok :
      (draw : ℕ)
      → (v : Value) × (over_limit codec (lookup (dump codec event) "book_id") draw ≡ ok v)
  unfolding over_limit lookup dump
  over_limit_ok draw = (
    num false (sound.known_book.0.notional_limit * randint 12000 40000 draw) 4,
    rw sound.known_book.1,
  )

  -- Every fault applies to the payload of a sound event, whatever the draws.
  pub apply_fault-Returns :
      (fault : Fault) (d : FaultDraws)
      → Returns (λ out. IsCodes out.1) (apply_fault codec fault (dump codec event) d)
  unfolding apply_fault
  apply_fault-Returns unparseable_json d = (IsCodes-fault unparseable_json)
  apply_fault-Returns missing_trade_id d = (IsCodes-fault missing_trade_id)
  apply_fault-Returns missing_mandatory_field d =
      rw ((choice_ok mandatory_fields d.pick (omega arith)).1)
        (IsCodes-fault missing_mandatory_field)
  apply_fault-Returns unknown_counterparty d = (IsCodes-fault unknown_counterparty)
  apply_fault-Returns inactive_counterparty d =
      rw ((choice_ok inactive_counterparty_ids d.pick (unfold keep in omega arith)).1)
        (IsCodes-fault inactive_counterparty)
  apply_fault-Returns invalid_currency d =
      let (token, e) = choice_ok invalid_currency_tokens d.pick (omega arith) in
      rw e (IsCodes-token token "RJ006" (unfold contains in refl))
  apply_fault-Returns negative_notional d =
      unfold lookup dump negated_abs grouped_text in (IsCodes-fault negative_notional)
  apply_fault-Returns zero_notional d = (IsCodes-fault zero_notional)
  apply_fault-Returns maturity_before_trade_date d =
      rw (days_before_lem (randint 1 30 d.amount) (randint_bounds 1 30 d.amount (omega arith)).1)
        (IsCodes-fault maturity_before_trade_date)
  apply_fault-Returns settlement_before_trade_date d =
      rw
        (days_before_lem (randint 1 5 d.amount)
          (omega (arith, randint_bounds 1 5 d.amount (omega arith))))
        (IsCodes-fault settlement_before_trade_date)
  apply_fault-Returns unknown_book d =
      let (token, e) = choice_ok invalid_book_tokens d.pick (omega arith) in
      rw e (IsCodes-token token "RJ011" (unfold contains in refl))
  apply_fault-Returns unsupported_product d =
      rw ((choice_ok unsupported_product_tokens d.pick (omega arith)).1)
        (IsCodes-fault unsupported_product)
  apply_fault-Returns invalid_direction d =
      let (token, e) = choice_ok invalid_direction_tokens d.pick (omega arith) in
      rw e (IsCodes-token token "RJ015" (unfold contains in refl))
  apply_fault-Returns non_deliverable_physical d =
      rw ((choice_ok non_deliverable_currency_codes d.pick (unfold keep in omega arith)).1)
        (IsCodes-fault non_deliverable_physical)
  apply_fault-Returns notional_over_limit d =
      rw ((over_limit_ok d.amount).1) (IsCodes-fault notional_over_limit)
  apply_fault-Returns type_mismatch_notional d =
      unfold lookup dump negated_abs grouped_text in (IsCodes-fault type_mismatch_notional)

  IsCodes-finish :
      (fault : Fault) (out : Fields × List String)
      → IsCodes out.1
      → IsCodes (finish codec fault out).expected_rule_codes
  unfolding finish
  IsCodes-finish unparseable_json out h = h
  IsCodes-finish _ out h = h

  -- On an event of a known book, dated on the 31st day of the calendar or later, whatever fault is
  -- drawn is applied and nothing raises; the codes expected are some, and never RJ001.
  pub corrupt-Returns :
      (d : FaultDraws) → Returns (λ c. IsCodes c.expected_rule_codes) (corrupt codec event d)
  unfolding corrupt
  corrupt-Returns d =
      let (fault, drawn) = choice_ok all_faults d.fault (omega arith) in
      let (outcome, applied, codes) =
        Returns-value (λ out. IsCodes out.1) (apply_fault codec fault (dump codec event) d)
          (apply_fault-Returns fault d) in
      rw (drawn, applied) (IsCodes-finish fault outcome codes)
