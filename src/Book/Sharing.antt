-- ===== src/Book/Sharing.antt =====
-- TradeBook.exclusive, load and save of ingestion/src/trade_sim/generator.py: simulators that share
-- a state directory, of which one at a time holds the lock and has the book in memory. What the
-- JSON library writes, it is taken to read again.
use snowflake_trade_pipeline.Prelude.{
  ℕ, String, ◌≡◌, Bool, false, Option, none, some, List, [], ◌∷◌, map, contains, string_eq,
  if◌then◌else◌,
}
use snowflake_trade_pipeline.Prelude.Dict.{Dict, lookup}
use snowflake_trade_pipeline.Result.{Result, ok, err, type_error, ◌>>=◌}
use snowflake_trade_pipeline.Prelude.Sorting.{sort_keys}
use snowflake_trade_pipeline.Book.{TradeBook, TradeBookEntry, allocate_trade_id, record_entry}

-- What stands in a JSON object under a key.
pub data Json : Type 0 where
  absent : Json
  truth : Bool → Json
  number : ℕ → Json
  text : String → Json

abbrev optional : Option String → Json
optional none = absent
optional (some s) = text s

-- `asdict(entry)`
unfoldable pub asdict : TradeBookEntry → Dict String Json
asdict e =
    ("trade_id", text e.trade_id)
    ∷ ("trade_version", number e.trade_version)
    ∷ ("product_type", text e.product_type)
    ∷ ("counterparty_id", text e.counterparty_id)
    ∷ ("book_id", text e.book_id)
    ∷ ("notional_currency", text e.notional_currency)
    ∷ ("settlement_currency", text e.settlement_currency)
    ∷ ("buy_sell", text e.buy_sell)
    ∷ ("notional_amount", text e.notional_amount)
    ∷ ("trade_date", text e.trade_date)
    ∷ ("maturity_date", optional e.maturity_date)
    ∷ ("uti", text e.uti)
    ∷ ("is_cancelled", truth e.is_cancelled)
    ∷ ("last_event_ts", optional e.last_event_ts)
    ∷ []

-- The parameters of `TradeBookEntry(…)`
abbrev parameters : List String
parameters =
    "trade_id" ∷ "trade_version" ∷ "product_type" ∷ "counterparty_id" ∷ "book_id"
    ∷ "notional_currency" ∷ "settlement_currency" ∷ "buy_sell" ∷ "notional_amount" ∷ "trade_date"
    ∷ "maturity_date" ∷ "uti" ∷ "is_cancelled" ∷ "last_event_ts" ∷ []

-- A parameter without a default: a missing one is a `TypeError`, and so is, in the model, a value
-- of another type, which a dataclass takes and no `save` writes.
abbrev text_of : Option Json → Result String
text_of (some (text s)) = ok s
text_of _ = err type_error

abbrev number_of : Option Json → Result ℕ
number_of (some (number n)) = ok n
number_of _ = err type_error

abbrev optional_of : Option Json → Result (Option String)
optional_of (some absent) = ok none
optional_of (some (text s)) = ok (some s)
optional_of _ = err type_error

abbrev truth_or_false : Option Json → Result Bool
truth_or_false none = ok false
truth_or_false (some (truth b)) = ok b
truth_or_false (some _) = err type_error

abbrev optional_or_none : Option Json → Result (Option String)
optional_or_none none = ok none
optional_or_none (some v) = optional_of (some v)

-- An unknown keyword is a `TypeError`.
unfoldable pub known_only : Dict String Json → Result (Unit {0})
unfolding contains
known_only [] = ok tt
known_only ((k, v) ∷ d) =
    let rest = known_only d in if contains parameters k then rest else err type_error

-- `TradeBookEntry(**v)`
unfoldable pub entry_from : Dict String Json → Result TradeBookEntry
unfolding known_only lookup
entry_from v = do
  _ ← known_only v
  trade_id ← text_of (lookup v "trade_id")
  trade_version ← number_of (lookup v "trade_version")
  product_type ← text_of (lookup v "product_type")
  counterparty_id ← text_of (lookup v "counterparty_id")
  book_id ← text_of (lookup v "book_id")
  notional_currency ← text_of (lookup v "notional_currency")
  settlement_currency ← text_of (lookup v "settlement_currency")
  buy_sell ← text_of (lookup v "buy_sell")
  notional_amount ← text_of (lookup v "notional_amount")
  trade_date ← text_of (lookup v "trade_date")
  maturity_date ← optional_of (lookup v "maturity_date")
  uti ← text_of (lookup v "uti")
  is_cancelled ← truth_or_false (lookup v "is_cancelled")
  last_event_ts ← optional_or_none (lookup v "last_event_ts")
  ok record {
    trade_id = trade_id;
    trade_version = trade_version;
    product_type = product_type;
    counterparty_id = counterparty_id;
    book_id = book_id;
    notional_currency = notional_currency;
    settlement_currency = settlement_currency;
    buy_sell = buy_sell;
    notional_amount = notional_amount;
    trade_date = trade_date;
    maturity_date = maturity_date;
    uti = uti;
    is_cancelled = is_cancelled;
    last_event_ts = last_event_ts;
  }

-- `{k: TradeBookEntry(**v) for k, v in raw.get("trades", {}).items()}`, of an object whose keys
-- differ
unfoldable pub entries_from : Dict String (Dict String Json) → Result (Dict String TradeBookEntry)
unfolding entry_from
entries_from [] = ok []
entries_from ((k, v) ∷ d) = do e ← entry_from v; rest ← entries_from d; ok ((k, e) ∷ rest)

-- The JSON object in the file, where both members may be missing.
pub record Payload : Type 0 where
  pub stored_sequence : Option ℕ
  pub stored_trades : Option (Dict String (Dict String Json))

abbrev pub empty_book : TradeBook
empty_book = record { trades = []; next_sequence = 1 }

-- `none` is a directory without a book.
unfoldable pub load : Option Payload → Result TradeBook
unfolding entries_from
load none = ok empty_book
load (some raw) = do
  trades ← entries_from (elim raw.stored_trades [ none ↦ [] | some d ↦ d ])
  ok record { trades = trades; next_sequence = elim raw.stored_sequence [ none ↦ 1 | some n ↦ n ] }

-- `sort_keys=True` orders the entries and the fields of each.
unfoldable pub save : TradeBook → Payload
unfolding sort_keys asdict
save book = record {
  stored_sequence = some book.next_sequence;
  stored_trades = some (sort_keys (map (λ p. (p.0, sort_keys (asdict p.1))) book.trades));
}

-- The directory: its book, the simulator that holds the lock with the book that it has in memory,
-- and the identifiers minted so far, by whichever simulator, latest first.
pub record Directory : Type 0 where
  pub stored : Option Payload
  pub holder : Option (ℕ × TradeBook)
  pub minted : List String

-- What one simulator does next. Only the one that holds the lock touches the book, and giving up
-- the lock, after a failed batch too, saves it.
pub data Step : Directory → Directory → Type 0 where
  acquire :
      (p : ℕ) (book : TradeBook) (d : Directory)
      → d.holder ≡ none
      → load d.stored ≡ ok book
      → Step d (record d { holder = some (p, book) })
  mint :
      (p : ℕ) (book : TradeBook) (d : Directory)
      → d.holder ≡ some (p, book)
      → Step d (record d {
        holder = some (p, (allocate_trade_id book).1);
        minted = (allocate_trade_id book).0 ∷ d.minted;
      })
  enter :
      (p : ℕ) (book : TradeBook) (entry : TradeBookEntry) (d : Directory)
      → d.holder ≡ some (p, book)
      → Step d (record d { holder = some (p, record_entry book entry) })
  release :
      (p : ℕ) (book : TradeBook) (d : Directory)
      → d.holder ≡ some (p, book)
      → Step d (record d { stored = some (save book); holder = none })

pub data Reach (start : Directory) : Directory → Type 0 where
  here : Reach start start
  next : {d e : Directory} → Reach start d → Step d e → Reach start e
