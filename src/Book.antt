-- ===== src/Book.antt =====
-- `TradeBookEntry` and `TradeBook` of ingestion/src/trade_sim/generator.py: what one simulator has in
-- memory. Sharing is the file and the lock round it.
pub mod Format
pub mod Identity
pub mod Sharing
pub mod Minting
unfoldable pub use Format.{trade_id_text, zero_padded}
pub use Format.{trade_id_text-injective}
use snowflake_trade_pipeline.Prelude.{ℕ, ◌+◌, String, Bool, not, List, Option, keep, string_eq}
use snowflake_trade_pipeline.Prelude.Dict.{Dict, values, lookup, insert}

pub record TradeBookEntry : Type 0 where
  pub trade_id : String
  pub trade_version : ℕ
  pub product_type : String
  pub counterparty_id : String
  pub book_id : String
  pub notional_currency : String
  pub settlement_currency : String
  pub buy_sell : String
  pub notional_amount : String
  pub trade_date : String
  pub maturity_date : Option String
  pub uti : String
  pub is_cancelled : Bool
  pub last_event_ts : Option String

pub record TradeBook : Type 0 where
  pub trades : Dict String TradeBookEntry
  pub next_sequence : ℕ

-- `self.trades[trade_id]`; `none` is the `KeyError`.
unfoldable pub entry_of : TradeBook → String → Option TradeBookEntry
entry_of book trade_id = lookup book.trades trade_id

unfoldable pub allocate_trade_id : TradeBook → String × TradeBook
allocate_trade_id book =
    (trade_id_text book.next_sequence, record book { next_sequence = book.next_sequence + 1 })

unfoldable pub amendable : TradeBook → List TradeBookEntry
unfolding keep
amendable book = keep (λ t. not t.is_cancelled) (values book.trades)

-- `TradeBook.record`
unfoldable pub record_entry : TradeBook → TradeBookEntry → TradeBook
record_entry book entry = record book { trades = insert book.trades entry.trade_id entry }
