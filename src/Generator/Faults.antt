-- ===== src/Generator/Faults.antt =====
-- The fault catalogue and `_corrupt` of ingestion/src/trade_sim/generator.py. The catalogue's keys
-- are the constructors of `Fault`.
pub mod Returns
use Prim.Native.Char.{code}
use snowflake_trade_pipeline.Prelude.{
  ℕ, ◌+◌, ◌-◌, ◌*◌, String, Bool, true, false, List, [], ◌∷◌, Option, none, some, ltb,
  if◌then◌else◌, ◌==◌, string_eq, nat_eq, ◌&&◌,
}
use snowflake_trade_pipeline.Prelude.Dict.{Dict, lookup, insert, remove}
use snowflake_trade_pipeline.Result.{
  Result, ok, err, key_error, value_error, type_error, overflow_error, or_raise, ◌>>=◌,
}
use snowflake_trade_pipeline.Reference.{
  book_by_id, inactive_counterparty_ids, invalid_currency_tokens, invalid_book_tokens,
  invalid_direction_tokens, unsupported_product_tokens, non_deliverable_currency_codes,
}
use snowflake_trade_pipeline.Schema.{TradeEvent, Payload, object, verbatim, dump}
use snowflake_trade_pipeline.Schema.Codecs.{Codec, Value, null, num, text}
use snowflake_trade_pipeline.Book.{zero_padded}
use snowflake_trade_pipeline.Generator.Draws.{FaultDraws, randint, choice}

pub data Fault : Type 0 where
  unparseable_json missing_trade_id missing_mandatory_field unknown_counterparty : Fault
  inactive_counterparty invalid_currency negative_notional zero_notional : Fault
  maturity_before_trade_date settlement_before_trade_date unknown_book unsupported_product : Fault
  invalid_direction non_deliverable_physical notional_over_limit type_mismatch_notional : Fault

unfoldable pub fault_name : Fault → String
fault_name unparseable_json = "unparseable_json"
fault_name missing_trade_id = "missing_trade_id"
fault_name missing_mandatory_field = "missing_mandatory_field"
fault_name unknown_counterparty = "unknown_counterparty"
fault_name inactive_counterparty = "inactive_counterparty"
fault_name invalid_currency = "invalid_currency"
fault_name negative_notional = "negative_notional"
fault_name zero_notional = "zero_notional"
fault_name maturity_before_trade_date = "maturity_before_trade_date"
fault_name settlement_before_trade_date = "settlement_before_trade_date"
fault_name unknown_book = "unknown_book"
fault_name unsupported_product = "unsupported_product"
fault_name invalid_direction = "invalid_direction"
fault_name non_deliverable_physical = "non_deliverable_physical"
fault_name notional_over_limit = "notional_over_limit"
fault_name type_mismatch_notional = "type_mismatch_notional"

unfoldable pub fault_expectations : Fault → List String
fault_expectations unparseable_json = "RJ008" ∷ []
fault_expectations missing_trade_id = "RJ008" ∷ []
fault_expectations missing_mandatory_field = "RJ004" ∷ []
fault_expectations unknown_counterparty = "RJ005" ∷ []
fault_expectations inactive_counterparty = "RJ016" ∷ []
fault_expectations invalid_currency = "RJ006" ∷ []
fault_expectations negative_notional = "RJ007" ∷ []
fault_expectations zero_notional = "RJ007" ∷ []
fault_expectations maturity_before_trade_date = "RJ002" ∷ []
fault_expectations settlement_before_trade_date = "RJ012" ∷ []
fault_expectations unknown_book = "RJ011" ∷ []
fault_expectations unsupported_product = "RJ013" ∷ []
fault_expectations invalid_direction = "RJ015" ∷ []
fault_expectations non_deliverable_physical = "RJ017" ∷ []
fault_expectations notional_over_limit = "RJ018" ∷ []
fault_expectations type_mismatch_notional = "RJ008" ∷ []

abbrev pub all_faults : List Fault
all_faults =
    unparseable_json ∷ missing_trade_id ∷ missing_mandatory_field ∷ unknown_counterparty
    ∷ inactive_counterparty ∷ invalid_currency ∷ negative_notional ∷ zero_notional
    ∷ maturity_before_trade_date ∷ settlement_before_trade_date ∷ unknown_book ∷ unsupported_product
    ∷ invalid_direction ∷ non_deliverable_physical ∷ notional_over_limit ∷ type_mismatch_notional
    ∷ []

-- `fault in WARN_ONLY_FAULTS`
unfoldable pub is_warn_only : Fault → Bool
is_warn_only notional_over_limit = true
is_warn_only _ = false

-- `fault in IDENTITY_DESTROYING_FAULTS`
unfoldable pub destroys_identity : Fault → Bool
destroys_identity unparseable_json = true
destroys_identity missing_trade_id = true
destroys_identity _ = false

pub record Corrupt : Type 0 where
  pub payload : Payload
  pub injected_fault : Fault
  pub expected_rule_codes : List String
  pub trade_id : Option String

-- `not token.strip()`: the tokens hold no blank but a space.
unfoldable pub is_blank : String → Bool
is_blank String.[] = true
is_blank (String.◌∷◌ c s) = code c == b' ' && is_blank s

unfoldable pub codes_for_reference_token : String → String → List String
unfolding is_blank
codes_for_reference_token token unknown_code =
    if is_blank token then "RJ004" ∷ [] else unknown_code ∷ []

-- `text.replace('":', '" ', 1)`
unfoldable pub drop_first_colon : String → String
drop_first_colon (String.◌∷◌ a (String.◌∷◌ b s)) =
    let rest = drop_first_colon (String.◌∷◌ b s) in
    if code a == b'"' && code b == b':' then String.◌∷◌ a (String.◌∷◌ " " s) else String.◌∷◌ a rest
drop_first_colon s = s

abbrev pub Fields : Type 0
Fields = Dict String Value

unfoldable pub text_of : Option Value → Option String
text_of (some (text s)) = some s
text_of _ = none

-- `-abs(x)`
unfoldable pub negated_abs : Option Value → Result Value
negated_abs (some (num _ n places)) = ok (num true n places)
negated_abs (some _) = err type_error
negated_abs none = err key_error

abbrev pub mandatory_fields : List String
mandatory_fields =
    "counterparty_id" ∷ "notional_currency" ∷ "trade_date" ∷ "book_id" ∷ "buy_sell" ∷ []

-- `date.fromisoformat(x) - timedelta(days=…)`, in ISO format. Dates begin with the ordinal 1.
module _ (codec : Codec) where
  unfoldable pub days_before : Option Value → ℕ → Result Value
  days_before (some (text s)) days = do
    day ← or_raise value_error (codec.date_fromisoformat s)
    if ltb days day then ok (text (codec.date_isoformat (day - days))) else err overflow_error
  days_before (some _) days = err type_error
  days_before none days = err key_error

  -- `f"{x:,.2f}"` of a number
  unfoldable pub grouped_text : Option Value → Result Value
  grouped_text (some (num _ n _)) = ok (text (codec.grouped n))
  grouped_text (some _) = err type_error
  grouped_text none = err key_error

  -- 120% to 400% of the limit of the book that the payload names
  unfoldable pub over_limit : Option Value → ℕ → Result Value
  over_limit (some (text book_id)) draw = do
    book ← or_raise key_error (book_by_id book_id)
    ok (num false (book.notional_limit * randint 12000 40000 draw) 4)
  over_limit _ draw = err key_error

  -- The body of `match fault`: the new payload, and the codes where they depend on a token.
  unfoldable pub apply_fault : Fault → Fields → FaultDraws → Result (Fields × List String)
  apply_fault unparseable_json p d = ok (p, fault_expectations unparseable_json)
  apply_fault missing_trade_id p d = ok (remove p "trade_id", fault_expectations missing_trade_id)
  apply_fault missing_mandatory_field p d = do
    victim ←
        choice
          ("counterparty_id" ∷ "notional_currency" ∷ "trade_date" ∷ "book_id" ∷ "buy_sell" ∷ [])
          d.pick
    ok (insert p victim null, fault_expectations missing_mandatory_field)
  apply_fault unknown_counterparty p d = ok (
    insert p "counterparty_id"
        (text (String.◌∷◌ "C" (String.◌∷◌ "P" (zero_padded 0 (randint 9000 9999 d.amount))))),
    fault_expectations unknown_counterparty,
  )
  apply_fault inactive_counterparty p d = do
    id ← choice inactive_counterparty_ids d.pick
    ok (insert p "counterparty_id" (text id), fault_expectations inactive_counterparty)
  apply_fault invalid_currency p d = do
    token ← choice invalid_currency_tokens d.pick
    ok (insert p "notional_currency" (text token), codes_for_reference_token token "RJ006")
  apply_fault negative_notional p d = do
    amount ← negated_abs (lookup p "notional_amount")
    ok (insert p "notional_amount" amount, fault_expectations negative_notional)
  apply_fault zero_notional p d =
      ok (insert p "notional_amount" (num false 0 0), fault_expectations zero_notional)
  apply_fault maturity_before_trade_date p d = do
    day ← days_before (lookup p "trade_date") (randint 1 30 d.amount)
    ok (insert p "maturity_date" day, fault_expectations maturity_before_trade_date)
  apply_fault settlement_before_trade_date p d = do
    day ← days_before (lookup p "trade_date") (randint 1 5 d.amount)
    ok (insert p "settlement_date" day, fault_expectations settlement_before_trade_date)
  apply_fault unknown_book p d = do
    token ← choice invalid_book_tokens d.pick
    ok (insert p "book_id" (text token), codes_for_reference_token token "RJ011")
  apply_fault unsupported_product p d = do
    token ← choice unsupported_product_tokens d.pick
    ok (insert p "product_type" (text token), fault_expectations unsupported_product)
  apply_fault invalid_direction p d = do
    token ← choice invalid_direction_tokens d.pick
    ok (insert p "buy_sell" (text token), codes_for_reference_token token "RJ015")
  apply_fault non_deliverable_physical p d = do
    currency ← choice non_deliverable_currency_codes d.pick
    ok (
      insert
          (insert (insert p "product_type" (text "FX_FORWARD")) "settlement_currency"
            (text currency))
          "notional_currency" (text currency),
      fault_expectations non_deliverable_physical,
    )
  apply_fault notional_over_limit p d = do
    amount ← over_limit (lookup p "book_id") d.amount
    ok (insert p "notional_amount" amount, fault_expectations notional_over_limit)
  apply_fault type_mismatch_notional p d = do
    amount ← grouped_text (lookup p "notional_amount")
    ok (insert p "notional_amount" amount, fault_expectations type_mismatch_notional)

  -- The early return of the unparseable payload, and the return of every other.
  unfoldable pub finish : Fault → Fields × List String → Corrupt
  finish unparseable_json (p, codes) = record {
    payload = verbatim (drop_first_colon (codec.dumps p));
    injected_fault = unparseable_json;
    expected_rule_codes = codes;
    trade_id = none;
  }
  finish fault (p, codes) = record {
    payload = object p;
    injected_fault = fault;
    expected_rule_codes = codes;
    trade_id = text_of (lookup p "trade_id");
  }

  unfoldable pub corrupt : TradeEvent → FaultDraws → Result Corrupt
  corrupt event d = do
    fault ← choice all_faults d.fault
    outcome ← apply_fault fault (dump codec event) d
    ok (finish fault outcome)
