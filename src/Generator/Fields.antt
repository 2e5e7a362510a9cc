-- ===== src/Generator/Fields.antt =====
-- The primitives of `TradeGenerator` in ingestion/src/trade_sim/generator.py: business days, the
-- fields of a fresh trade, and business times.
use snowflake_trade_pipeline.Prelude.{
  ℕ, zero, suc, ◌+◌, ◌-◌, ◌*◌, ◌%◌, String, Bool, List, [], ◌∷◌, map, Option, none, some, ltb,
  if◌then◌else◌, nat_eq, string_eq, contains, max,
}
use snowflake_trade_pipeline.Result.{Result, ok, err, value_error, overflow_error, or_raise, ◌>>=◌}
use snowflake_trade_pipeline.Reference.{
  Product, products, books, product_pool, physically_settled_products, deliverable_currency_codes,
  currency_codes, active_counterparty_ids, execution_venues, clearing_houses, source_systems,
}
use snowflake_trade_pipeline.Book.{zero_padded}
use snowflake_trade_pipeline.Schema.{Direction, buy, sell}
use snowflake_trade_pipeline.Schema.Codecs.{Codec}
use snowflake_trade_pipeline.Generator.Draws.{
  Settings, FieldDraws, StampDraws, randint, happens, choice,
}

-- `current.weekday() < 5`: `date.weekday` is `(toordinal() + 6) % 7`.
unfoldable pub is_business_day : ℕ → Bool
is_business_day day = ltb ((day + 6) % 7) 5

-- `date.max.toordinal()`, behind which `timedelta` raises
abbrev pub last_ordinal : ℕ
last_ordinal = 3652059

-- The first microsecond behind `datetime.max`
abbrev pub moments : ℕ
moments = 315537984000000000

-- The `while remaining > 0` loop. Between two business days lie two others at most, so three
-- rounds for each business day are enough.
unfoldable pub advance : ℕ → ℕ → ℕ → Result ℕ
advance zero current remaining = ok current
advance (suc fuel) current remaining =
    let rest =
      advance fuel (current + 1)
        (if is_business_day (current + 1) then remaining - 1 else remaining) in
    if ltb 0 remaining
    then (if ltb current last_ordinal then rest else err overflow_error)
    else ok current

unfoldable pub business_days_from : ℕ → ℕ → Result ℕ
business_days_from start days = advance (3 * days) start days

pub record TradeFields : Type 0 where
  pub product_type : String
  pub asset_class : String
  pub buy_sell : Direction
  pub notional_amount : ℕ
  pub notional_currency : String
  pub settlement_currency : String
  pub quantity : Option ℕ
  pub price : ℕ
  pub trade_date : ℕ
  pub settlement_date : ℕ
  pub maturity_date : Option ℕ
  pub counterparty_id : String
  pub book_id : String
  pub trader_id : String
  pub execution_venue : String
  pub clearing_house : String
  pub legal_entity : String
  pub source_system : String

abbrev up_from : ℕ → ℕ → List ℕ
up_from zero n = []
up_from (suc k) n = n ∷ up_from k (n + 1)

-- `f"TDR{n:04d}" for n in range(1, 41)`
unfoldable pub trader_ids : List String
trader_ids =
    map (λ n. String.◌∷◌ "T" (String.◌∷◌ "D" (String.◌∷◌ "R" (zero_padded 4 n)))) (up_from 40 1)

unfoldable pub tenor_days : Settings → Product → FieldDraws → ℕ
tenor_days settings product d =
    if happens settings.near_maturity_rate d.near
    then randint 1 3 d.tenor
    else randint product.tenor_days_min product.tenor_days_max d.tenor

unfoldable pub currency_pool : Product → List String
currency_pool product =
    if contains physically_settled_products product.product_type
    then deliverable_currency_codes
    else currency_codes

unfoldable pub new_trade_fields : Settings → ℕ → FieldDraws → Result TradeFields
new_trade_fields settings as_of d = do
  product ← choice (product_pool products) d.product
  book ← choice books d.book
  currency ← choice (currency_pool product) d.currency
  settlement_date ← business_days_from as_of 2
  maturity_date ← business_days_from as_of (max (tenor_days settings product d) 1)
  buy_sell ← choice (buy ∷ sell ∷ []) d.direction
  counterparty_id ← choice active_counterparty_ids d.counterparty
  trader_id ← choice trader_ids d.trader
  execution_venue ← choice execution_venues d.venue
  clearing_house ← choice clearing_houses d.house
  source_system ← choice source_systems d.source
  ok (record {
    product_type = product.product_type;
    asset_class = product.asset_class;
    buy_sell = buy_sell;
    notional_amount = d.notional;
    notional_currency = currency;
    settlement_currency = currency;
    quantity =
        if contains ("EQUITY" ∷ "CREDIT" ∷ []) product.asset_class then some d.notional else none;
    price = randint 500000 250000000 d.price;
    trade_date = as_of;
    settlement_date = settlement_date;
    maturity_date = some maturity_date;
    counterparty_id = counterparty_id;
    book_id = book.book_id;
    trader_id = trader_id;
    execution_venue = execution_venue;
    clearing_house = clearing_house;
    legal_entity = book.legal_entity;
    source_system = source_system;
  })

-- The intraday draw on the day `as_of`.
unfoldable pub drawn_stamp : ℕ → StampDraws → ℕ
drawn_stamp as_of d =
    (((as_of * 24 + randint 6 21 d.hour) * 60 + randint 0 59 d.minute) * 60 + randint 0 59 d.second)
      * 1000000
    + randint 0 999 d.millisecond * 1000

unfoldable pub step_after : ℕ → StampDraws → Result ℕ
step_after previous d =
    let stamp =
      previous + randint 1 900 d.gap_seconds * 1000000 + randint 0 999 d.gap_milliseconds * 1000 in
    if ltb stamp moments then ok stamp else err overflow_error

module _ (codec : Codec) where
  unfoldable pub event_timestamp : ℕ → StampDraws → Option String → Result ℕ
  unfolding drawn_stamp step_after
  event_timestamp as_of d none = ok (drawn_stamp as_of d)
  event_timestamp as_of d (some after) = do
    previous ← or_raise value_error (codec.fromisoformat after)
    if ltb previous (drawn_stamp as_of d) then ok (drawn_stamp as_of d) else step_after previous d
