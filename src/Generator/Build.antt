-- ===== src/Generator/Build.antt =====
-- The events of `TradeGenerator` in ingestion/src/trade_sim/generator.py: a booking, an amendment
-- or cancellation, a same-version resend and a stale arrival.
use Prim.Native.Char.{code}
use snowflake_trade_pipeline.Prelude.{
  ℕ, ◌+◌, ◌-◌, ◌*◌, ◌%◌, ◌/◌, String, Bool, true, false, Option, none, some, List, [], ◌∷◌, ltb,
  max, if◌then◌else◌, ◌==◌, nat_eq, string_eq,
}
use snowflake_trade_pipeline.Result.{
  Result, ok, err, value_error, validation_error, invalid_operation, or_raise, ◌>>=◌,
}
use snowflake_trade_pipeline.Schema.{
  is_valid, TradeEvent, TradeAction, new, amend, cancel, Direction, buy, sell,
}
use snowflake_trade_pipeline.Schema.Codecs.{Codec}
use snowflake_trade_pipeline.Book.{TradeBook, TradeBookEntry, allocate_trade_id, zero_padded}
use snowflake_trade_pipeline.Generator.Draws.{Settings, Draws, randint}
use snowflake_trade_pipeline.Generator.Fields.{
  TradeFields, new_trade_fields, business_days_from, event_timestamp,
}

-- `trade_id.replace('-', '')`
abbrev pub without_dashes : String → String
without_dashes String.[] = ""
without_dashes (String.◌∷◌ c s) =
    if code c == b'-' then without_dashes s else String.◌∷◌ c (without_dashes s)

abbrev pub behind : String → String → String
behind String.[] t = t
behind (String.◌∷◌ c s) t = String.◌∷◌ c (behind s t)

unfoldable pub make_uti : String → ℕ → String
make_uti trade_id draw =
    behind "DB" (behind (without_dashes trade_id) (zero_padded 0 (randint 1000 9999 draw)))

pub record Provenance : Type 0 where
  pub trade_id : String
  pub trade_version : ℕ
  pub action : TradeAction
  pub uti : String
  pub event_timestamp : ℕ

-- pydantic raises a `ValidationError` where the event is not valid.
unfoldable pub validated : TradeEvent → Result TradeEvent
unfolding is_valid
validated e = if is_valid e then ok e else err validation_error

-- `TradeEvent(trade_id=…, trade_version=…, action=…, uti=…, event_timestamp=…, **fields)`
unfoldable pub trade_event : Provenance → TradeFields → Result TradeEvent
unfolding validated
trade_event p f = validated record {
  trade_id = p.trade_id;
  trade_version = p.trade_version;
  action = p.action;
  uti = p.uti;
  product_type = f.product_type;
  asset_class = f.asset_class;
  buy_sell = f.buy_sell;
  notional_amount = f.notional_amount;
  notional_currency = f.notional_currency;
  settlement_currency = f.settlement_currency;
  quantity = f.quantity;
  price = f.price;
  trade_date = f.trade_date;
  settlement_date = f.settlement_date;
  maturity_date = f.maturity_date;
  counterparty_id = f.counterparty_id;
  book_id = f.book_id;
  trader_id = f.trader_id;
  execution_venue = f.execution_venue;
  clearing_house = f.clearing_house;
  legal_entity = f.legal_entity;
  source_system = f.source_system;
  event_timestamp = p.event_timestamp;
}

-- A division that rounds to the nearest whole number, and to an even one on a tie
unfoldable pub half_even : ℕ → ℕ → ℕ
half_even unit n =
    let whole = n / unit in
    let rest = n % unit in
    if ltb (2 * rest) unit
    then whole
    else if ltb unit (2 * rest)
    then whole + 1
    else whole + whole % 2

-- The first number of more digits than the 28 of the decimal context
abbrev pub precision : ℕ
precision = 10000000000000000000000000000

-- A product of more digits is rounded to 28 digits: the unit is that of the last of them.
unfoldable pub significant : List ℕ → ℕ → ℕ
unfolding half_even
significant [] n = n
significant (unit ∷ units) n =
    let rest = significant units n in
    if ltb n (precision * unit) then half_even unit n * unit else rest

-- `Decimal.quantize` from eight decimals to four, which raises beyond 28 digits
unfoldable pub quantized : ℕ → Result ℕ
unfolding half_even
quantized n =
    let whole = half_even 10000 n in if ltb whole precision then ok whole else err invalid_operation

-- `(Decimal(entry.notional_amount) * adjustment).quantize(…)`, of a factor of four decimals
unfoldable pub adjusted : ℕ → ℕ → Result ℕ
unfolding significant quantized
adjusted amount factor =
    let product = amount * factor in
    if ltb product precision
    then quantized product
    else quantized (significant (10 ∷ 100 ∷ 1000 ∷ 10000 ∷ []) product)

-- The booked direction, which pydantic reads as a `Direction`
unfoldable pub direction_of : String → Result Direction
direction_of s =
    if s == "BUY" then ok buy else if s == "SELL" then ok sell else err validation_error

module _ (codec : Codec) where
  -- `date.fromisoformat(entry.maturity_date) if entry.maturity_date else None`
  unfoldable pub booked_maturity : Option String → Result (Option ℕ)
  booked_maturity none = ok none
  booked_maturity (some s) =
      if s == ""
      then ok none
      else do d ← or_raise value_error (codec.date_fromisoformat s); ok (some d)

  -- `if not cancel:` the booked notional is nudged; a cancellation keeps the fresh one.
  unfoldable pub amended_notional : TradeBookEntry → Draws → Bool → ℕ → Result ℕ
  amended_notional entry d true fresh = ok fresh
  amended_notional entry d false fresh = do
    amount ← or_raise value_error (codec.decimal entry.notional_amount)
    adjusted amount (randint 8500 11500 d.adjustment)

module _ (codec : Codec) (settings : Settings) where
  unfoldable pub build_new : TradeBook → ℕ → Draws → Result (TradeEvent × TradeBook)
  build_new book as_of d = do
    let allocated = allocate_trade_id book
    fields ← new_trade_fields settings as_of d.fields
    stamp ← event_timestamp codec as_of d.stamp none
    event ←
        trade_event
          (record {
            trade_id = allocated.0;
            trade_version = 1;
            action = new;
            uti = make_uti allocated.0 d.uti;
            event_timestamp = stamp;
          })
          fields
    ok (event, allocated.1)

  unfoldable pub build_amendment : TradeBookEntry → ℕ → Draws → Bool → Result TradeEvent
  unfolding booked_maturity amended_notional direction_of
  build_amendment entry as_of d is_cancel = do
    fresh ← new_trade_fields settings as_of d.fields
    trade_date ← or_raise value_error (codec.date_fromisoformat entry.trade_date)
    maturity_date ← booked_maturity codec entry.maturity_date
    settlement_date ← business_days_from trade_date 2
    notional_amount ← amended_notional codec entry d is_cancel fresh.notional_amount
    stamp ← event_timestamp codec as_of d.stamp entry.last_event_ts
    buy_sell ← direction_of entry.buy_sell
    trade_event
        (record {
          trade_id = entry.trade_id;
          trade_version = entry.trade_version + 1;
          action = if is_cancel then cancel else amend;
          uti = entry.uti;
          event_timestamp = stamp;
        })
        (record fresh {
          product_type = entry.product_type;
          counterparty_id = entry.counterparty_id;
          book_id = entry.book_id;
          notional_currency = entry.notional_currency;
          settlement_currency = entry.settlement_currency;
          buy_sell = buy_sell;
          trade_date = trade_date;
          maturity_date = maturity_date;
          settlement_date = settlement_date;
          notional_amount = notional_amount;
        })

  -- `event.model_copy(update={"trade_version": entry.trade_version})`
  unfoldable pub build_replacement : TradeBookEntry → ℕ → Draws → Result TradeEvent
  build_replacement entry as_of d = do
    event ← build_amendment entry as_of d false
    ok (record event { trade_version = entry.trade_version })

  unfoldable pub build_stale : TradeBookEntry → ℕ → Draws → Result TradeEvent
  build_stale entry as_of d = do
    event ← build_amendment entry as_of d false
    ok (record event { trade_version = max 1 (entry.trade_version - randint 1 2 d.stale_gap) })
