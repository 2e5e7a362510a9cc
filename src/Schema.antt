-- ===== src/Schema.antt =====
-- ingestion/src/trade_sim/schema.py: the trade event, the payload that is written for it, and what
-- a manifest says about it. The codecs of the standard library (ISO dates, `str` of a decimal,
-- `json.dumps`) are the argument `Codec`.
--
-- Times are microseconds of UTC since `datetime.min`, dates are ordinals, and an amount of money
-- is a whole number of ten-thousandths, to which the program quantizes every notional.
pub mod Codecs
use Prim.Native.Char.{Char, code}
use snowflake_trade_pipeline.Prelude.{
  ℕ, zero, suc, ◌+◌, String, Bool, true, false, ◌&&◌, List, [], ◌∷◌, Option, none, some, ltb, ◌==◌,
  nat_eq,
}
use snowflake_trade_pipeline.Schema.Codecs.{Codec, Value, null, num, text}

pub data TradeAction : Type 0 where
  new amend cancel : TradeAction

unfoldable pub action_value : TradeAction → String
action_value new = "NEW"
action_value amend = "AMEND"
action_value cancel = "CANCEL"

pub data Direction : Type 0 where
  buy sell : Direction

unfoldable pub direction_value : Direction → String
direction_value buy = "BUY"
direction_value sell = "SELL"

pub record TradeEvent : Type 0 where
  pub trade_id : String
  pub trade_version : ℕ
  pub action : TradeAction
  pub uti : String
  pub product_type : String
  pub asset_class : String
  pub buy_sell : Direction
  pub notional_amount : ℕ
  pub notional_currency : String
  pub settlement_currency : String
  pub quantity : Option ℕ
  pub price : ℕ
  pub trade_date : ℕ
  pub settlement_date : ℕ
  pub maturity_date : Option ℕ
  pub counterparty_id : String
  pub book_id : String
  pub trader_id : String
  pub execution_venue : String
  pub clearing_house : String
  pub legal_entity : String
  pub source_system : String
  pub event_timestamp : ℕ

-- `\d`, of ASCII characters
unfoldable pub is_digit : Char → Bool
is_digit c = ltb 47 (code c) && ltb (code c) 58

unfoldable pub is_digits : ℕ → String → Bool
unfolding is_digit
is_digits zero String.[] = true
is_digits zero (String.◌∷◌ c s) = false
is_digits (suc n) String.[] = false
is_digits (suc n) (String.◌∷◌ c s) = is_digit c && is_digits n s

-- `^TRD-\d{9}$`
unfoldable pub is_trade_id : String → Bool
unfolding is_digits
is_trade_id (String.◌∷◌ t (String.◌∷◌ r (String.◌∷◌ d (String.◌∷◌ dash s)))) =
    code t == b'T' && code r == b'R' && code d == b'D' && code dash == b'-' && is_digits 9 s
is_trade_id _ = false

unfoldable pub char_count : String → ℕ
char_count String.[] = 0
char_count (String.◌∷◌ c s) = char_count s + 1

-- `min_length` and `max_length` of `uti`, and of the currencies
unfoldable pub is_uti : String → Bool
unfolding char_count
is_uti s = ltb 9 (char_count s) && ltb (char_count s) 53

unfoldable pub is_currency : String → Bool
unfolding char_count
is_currency s = char_count s == 3

-- What pydantic checks of a `TradeEvent` beyond the types of its fields.
unfoldable pub is_valid : TradeEvent → Bool
unfolding is_trade_id is_uti is_currency
is_valid e =
    is_trade_id e.trade_id
    && ltb 0 e.trade_version
    && is_uti e.uti
    && is_currency e.notional_currency
    && is_currency e.settlement_currency

-- What is written for an event: a JSON object, or a text that is written as it stands.
pub data Payload : Type 0 where
  object : List (String × Value) → Payload
  verbatim : String → Payload

pub record GeneratedEvent : Type 0 where
  pub payload : Payload
  pub trade_id : Option String
  pub trade_version : Option ℕ
  pub action : Option String
  pub injected_fault : Option String
  pub expected_verdict : String
  pub expected_rule_codes : List String
  pub field_valid : Bool

pub record ExpectedVerdict : Type 0 where
  pub trade_id : Option String
  pub trade_version : Option ℕ
  pub action : Option String
  pub injected_fault : Option String
  pub expected_verdict : String
  pub expected_rule_codes : List String

module _ (codec : Codec) where
  open codec use {isoformat, date_isoformat}

  abbrev optional_date : Option ℕ → Value
  optional_date none = null
  optional_date (some d) = text (date_isoformat d)

  abbrev optional_decimal : Option ℕ → Value
  optional_decimal none = null
  optional_decimal (some n) = num false n 4

  -- `json.loads(event.model_dump_json())`, its fields in the order of their declaration. A price
  -- is a whole number of millionths.
  unfoldable pub dump : TradeEvent → List (String × Value)
  dump e =
      ("trade_id", text e.trade_id)
      ∷ ("trade_version", num false e.trade_version 0)
      ∷ ("action", text (action_value e.action))
      ∷ ("uti", text e.uti)
      ∷ ("product_type", text e.product_type)
      ∷ ("asset_class", text e.asset_class)
      ∷ ("buy_sell", text (direction_value e.buy_sell))
      ∷ ("notional_amount", num false e.notional_amount 4)
      ∷ ("notional_currency", text e.notional_currency)
      ∷ ("settlement_currency", text e.settlement_currency)
      ∷ ("quantity", optional_decimal e.quantity)
      ∷ ("price", num false e.price 6)
      ∷ ("trade_date", text (date_isoformat e.trade_date))
      ∷ ("settlement_date", text (date_isoformat e.settlement_date))
      ∷ ("maturity_date", optional_date e.maturity_date)
      ∷ ("counterparty_id", text e.counterparty_id)
      ∷ ("book_id", text e.book_id)
      ∷ ("trader_id", text e.trader_id)
      ∷ ("execution_venue", text e.execution_venue)
      ∷ ("clearing_house", text e.clearing_house)
      ∷ ("legal_entity", text e.legal_entity)
      ∷ ("source_system", text e.source_system)
      ∷ ("event_timestamp", text (isoformat e.event_timestamp))
      ∷ []
