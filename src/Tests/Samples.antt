-- ===== src/Tests/Samples.antt =====
-- Test data: a book with a trade at version 3 and a cancelled trade, draws, and arrivals.
use snowflake_trade_pipeline.Prelude.{
  ℕ, String, refl, true, false, List, [], ◌∷◌, some, none, string_eq, arith, contains,
}
use snowflake_trade_pipeline.Reference.{book_by_id}
use snowflake_trade_pipeline.Schema.{
  is_trade_id, is_uti, is_currency, TradeEvent, buy, new, GeneratedEvent, object,
}
use snowflake_trade_pipeline.Schema.Codecs.{tallies, tally, text}
use snowflake_trade_pipeline.Book.{TradeBook, TradeBookEntry, trade_id_text}
use snowflake_trade_pipeline.Book.Identity.{IsMinted}
use snowflake_trade_pipeline.Generator.Draws.{Settings, Draws, FieldDraws, StampDraws}
use snowflake_trade_pipeline.Generator.Build.{direction_of}
use snowflake_trade_pipeline.Generator.Readable.{IsReadable, IsSound}
use snowflake_trade_pipeline.Generator.Batch.{IsStored}

abbrev pub settings : Settings
settings = record {
  error_rate = 150000;
  amend_rate = 300000;
  cancel_rate = 50000;
  replace_rate = 40000;
  stale_version_rate = 30000;
  near_maturity_rate = 100000;
}

abbrev pub field_draws : FieldDraws
field_draws = record {
  product = 3;
  book = 4;
  currency = 2;
  near = 500000;
  tenor = 9;
  notional = 10000000;
  direction = 1;
  price = 77;
  counterparty = 5;
  trader = 6;
  venue = 1;
  house = 0;
  source = 2;
}

abbrev pub stamp_draws : StampDraws
stamp_draws = record {
  hour = 3;
  minute = 14;
  second = 15;
  millisecond = 92;
  gap_seconds = 65;
  gap_milliseconds = 35;
}

-- Draws of a round that takes the branch of the roll given.
abbrev pub draws : ℕ → Draws
draws roll = record {
  roll = roll;
  pick = 0;
  cancel = 400000;
  stale_gap = 1;
  adjustment = 0;
  uti = 0;
  error = 500000;
  fields = field_draws;
  stamp = stamp_draws;
  fault = record { fault = 4; pick = 2; amount = 7 };
}

abbrev pub entry : TradeBookEntry
entry = record {
  trade_id = trade_id_text 1;
  trade_version = 3;
  product_type = "FX_SPOT";
  counterparty_id = "CP-0001";
  book_id = "BK-FX-LDN-01";
  notional_currency = "EUR";
  settlement_currency = "EUR";
  buy_sell = "BUY";
  notional_amount = "xxxx";
  trade_date = tally 40;
  maturity_date = some (tally 44);
  uti = "DBTRD0000000011234";
  is_cancelled = false;
  last_event_ts = some "xxx";
}

abbrev pub cancelled_entry : TradeBookEntry
cancelled_entry = record entry { trade_id = trade_id_text 2; is_cancelled = true }

abbrev pub book : TradeBook
book = record {
  trades = (trade_id_text 1, entry) ∷ (trade_id_text 2, cancelled_entry) ∷ [];
  next_sequence = 3;
}

-- Room for three rounds, and for two more behind them.
pub entry-IsReadable : IsReadable tallies 5 entry
unfolding book_by_id direction_of is_trade_id trade_id_text is_uti is_currency
entry-IsReadable = record {
  known_book = (_, refl);
  direction = (buy, refl);
  dated = (40, refl, omega arith, omega arith);
  maturity = (44, refl);
  amount = (4, refl, omega arith);
  clocked = (3, refl, omega arith);
  texts = (refl, refl, refl, refl);
}

pub cancelled_entry-IsReadable : IsReadable tallies 5 cancelled_entry
unfolding is_trade_id trade_id_text
cancelled_entry-IsReadable = record {
  known_book = entry-IsReadable.known_book;
  direction = entry-IsReadable.direction;
  dated = entry-IsReadable.dated;
  maturity = entry-IsReadable.maturity;
  amount = entry-IsReadable.amount;
  clocked = entry-IsReadable.clocked;
  texts = (refl, entry-IsReadable.texts.1, entry-IsReadable.texts.2, entry-IsReadable.texts.3);
}

pub IsMinted-1 : IsMinted 3 (trade_id_text 1)
IsMinted-1 = record { sequence = 1; used = omega arith; named = refl }

pub IsMinted-2 : IsMinted 3 (trade_id_text 2)
IsMinted-2 = record { sequence = 2; used = omega arith; named = refl }

pub book-IsStored : IsStored tallies 5 book.next_sequence book.trades
unfolding contains trade_id_text
book-IsStored = (
  refl,
  IsMinted-1,
  entry-IsReadable,
  refl,
  (refl, IsMinted-2, cancelled_entry-IsReadable, refl, tt),
)

abbrev pub event : TradeEvent
event = record {
  trade_id = "TRD-000000009";
  trade_version = 1;
  action = new;
  uti = "DBTRD0000000011234";
  product_type = "FX_SPOT";
  asset_class = "FX";
  buy_sell = buy;
  notional_amount = 12345;
  notional_currency = "EUR";
  settlement_currency = "EUR";
  quantity = none;
  price = 500000;
  trade_date = 40;
  settlement_date = 42;
  maturity_date = some 50;
  counterparty_id = "CP-0001";
  book_id = "BK-FX-LDN-01";
  trader_id = "TDR0001";
  execution_venue = "XLON";
  clearing_house = "LCH";
  legal_entity = "DB London Branch";
  source_system = "MUREX";
  event_timestamp = 7;
}

pub event-IsSound : IsSound event
unfolding book_by_id
event-IsSound = record { known_book = (_, refl); dated = omega arith }

-- An arrival of version 2 of a trade, at a time given by a tally.
abbrev pub arrival : String → GeneratedEvent
arrival stamp = record {
  payload = object (("event_timestamp", text stamp) ∷ []);
  trade_id = some "TRD-000000001";
  trade_version = some 2;
  action = some "AMEND";
  injected_fault = none;
  expected_verdict = "ACCEPTED";
  expected_rule_codes = [];
  field_valid = true;
}

-- The first of the three is as late as the third, and the second is earlier.
abbrev pub arrivals : List GeneratedEvent
arrivals = arrival "xxx" ∷ arrival "xx" ∷ arrival "xxx" ∷ []
