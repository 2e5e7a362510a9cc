-- ===== src/Generator/Readable.antt =====
-- A book entry of ingestion/src/trade_sim/generator.py that the generator can read back, and an event
-- that the book can keep, with room for the rounds that follow.
use snowflake_trade_pipeline.Prelude.{
  zero, suc, ◌+◌, ◌*◌, ◌/◌, true, ℕ, ◌<◌, ◌≤◌, String, ◌≡◌, refl, Option, none, some, arith,
  string_eq,
}
use snowflake_trade_pipeline.Result.{ok}
use snowflake_trade_pipeline.Reference.{Book, book_by_id}
use snowflake_trade_pipeline.Schema.{
  is_trade_id, is_uti, is_currency, TradeEvent, Direction, buy, sell, direction_value,
}
use snowflake_trade_pipeline.Schema.Codecs.{Codec}
use snowflake_trade_pipeline.Book.{TradeBookEntry}
use snowflake_trade_pipeline.Generator.Fields.{moments}
use snowflake_trade_pipeline.Generator.Clock.{longest_gap}
use snowflake_trade_pipeline.Generator.Build.{direction_of}
use snowflake_trade_pipeline.Generator.Run.{book_entry}

-- The day from which on no fault can leave the calendar.
abbrev pub first_day : ℕ
first_day = 31

-- The last day from which every tenor stays on the calendar.
abbrev pub last_day : ℕ
last_day = 3619209

-- So many rounds cannot carry a business time from such a day to the end of the calendar.
abbrev pub most_rounds : ℕ
most_rounds = 1000000

-- An amount after so many of the largest amendments.
abbrev pub grown : ℕ → ℕ → ℕ
grown zero amount = amount
grown (suc n) amount = grown n (amount * 23 / 20 + 1)

-- The amount can be amended so often before it has more digits than the decimal context.
abbrev pub HasRoom : ℕ → ℕ → Type 0
HasRoom n amount = grown n amount ≤ 869565217391304347826086

-- The business time can be stepped so often before the calendar ends.
abbrev pub HasTime : ℕ → ℕ → Type 0
HasTime n stamp = stamp + n * longest_gap < moments

-- The texts that the schema checks the form of: identifier, UTI and currencies.
abbrev pub AreTexts : String → String → String → String → Type 0
AreTexts trade_id uti notional settlement =
    (is_trade_id trade_id ≡ true)
    × (is_uti uti ≡ true)
    × (is_currency notional ≡ true)
    × (is_currency settlement ≡ true)

abbrev pub IsKnownBook : String → Type 0
IsKnownBook book_id = (b : Book) × (book_by_id book_id ≡ some b)

abbrev pub Reads : (String → Option ℕ) → Option String → Type 0
Reads parse none = Unit
Reads parse (some s) = (n : ℕ) × (parse s ≡ some n)

abbrev pub HasClock : Codec → ℕ → Option String → Type 0
HasClock codec n none = Unit
HasClock codec n (some s) = (t : ℕ) × (codec.fromisoformat s ≡ some t) × HasTime n t

-- What the generator needs of an entry to go on for `n` rounds.
pub record IsReadable (codec : Codec) (n : ℕ) (e : TradeBookEntry) : Type 0 where
  pub known_book : IsKnownBook e.book_id
  pub direction : (x : Direction) × (direction_of e.buy_sell ≡ ok x)
  pub dated :
      (d : ℕ) × (codec.date_fromisoformat e.trade_date ≡ some d) × (first_day ≤ d) × (d ≤ last_day)
  pub maturity : Reads codec.date_fromisoformat e.maturity_date
  pub amount : (a : ℕ) × (codec.decimal e.notional_amount ≡ some a) × HasRoom n a
  pub clocked : HasClock codec n e.last_event_ts
  pub texts : AreTexts e.trade_id e.uti e.notional_currency e.settlement_currency

-- What the faults need of an event.
pub record IsSound (event : TradeEvent) : Type 0 where
  pub known_book : IsKnownBook event.book_id
  pub dated : first_day ≤ event.trade_date

-- What the book needs of an event to go on for `n` rounds.
pub record IsKept (n : ℕ) (event : TradeEvent) : Type 0 where
  pub sound : IsSound event
  pub early : event.trade_date ≤ last_day
  pub amount : HasRoom n event.notional_amount
  pub clocked : HasTime n event.event_timestamp
  pub texts : AreTexts event.trade_id event.uti event.notional_currency event.settlement_currency

grown_le : (n a b : ℕ) → a ≤ b → grown n a ≤ grown n b
grown_le zero a b h = h
grown_le (suc n) a b h = grown_le n (a * 23 / 20 + 1) (b * 23 / 20 + 1) (omega arith)

pub HasRoom-less : (n a b : ℕ) → b ≤ a * 23 / 20 + 1 → HasRoom (suc n) a → HasRoom n b
HasRoom-less n a b h r = omega (arith, grown_le n b (a * 23 / 20 + 1) h)

grown_start : (n a : ℕ) → a ≤ grown n a
grown_start zero a = omega arith
grown_start (suc n) a = omega (arith, grown_start n (a * 23 / 20 + 1))

pub HasRoom-now : (n a : ℕ) → HasRoom n a → a ≤ 869565217391304347826086
HasRoom-now n a r = omega (arith, grown_start n a)

HasClock-weaken :
    (codec : Codec) (n : ℕ) (after : Option String)
    → HasClock codec (suc n) after
    → HasClock codec n after
HasClock-weaken codec n none h = h
HasClock-weaken codec n (some s) (t, e, h) = (t, e, omega arith)

-- What can go on for a round more can go on.
pub IsReadable-weaken :
    (codec : Codec) (n : ℕ) (e : TradeBookEntry) → IsReadable codec (suc n) e → IsReadable codec n e
IsReadable-weaken codec n e r = record {
  known_book = r.known_book;
  direction = r.direction;
  dated = r.dated;
  maturity = r.maturity;
  amount = (r.amount.0, r.amount.1, HasRoom-less n r.amount.0 r.amount.0 (omega arith) r.amount.2);
  clocked = HasClock-weaken codec n e.last_event_ts r.clocked;
  texts = r.texts;
}

Maturity-read :
    (codec : Codec) (m : Option ℕ)
    → Reads codec.date_fromisoformat
        (elim m [ none ↦ none | some d ↦ some (codec.date_isoformat d) ])
Maturity-read codec none = tt
Maturity-read codec (some d) = (d, codec.date_fromisoformat-isoformat d)

direction_of-value : (x : Direction) → direction_of (direction_value x) ≡ ok x
unfolding direction_of direction_value
direction_of-value buy = refl
direction_of-value sell = refl

-- The entry of such an event can be read back.
pub book_entry-IsReadable :
    (codec : Codec) (n : ℕ) (event : TradeEvent)
    → IsKept n event
    → IsReadable codec n (book_entry codec event)
unfolding book_entry
book_entry-IsReadable codec n event k = record {
  known_book = k.sound.known_book;
  direction = (event.buy_sell, direction_of-value event.buy_sell);
  dated = (
    event.trade_date,
    codec.date_fromisoformat-isoformat event.trade_date,
    k.sound.dated,
    k.early,
  );
  maturity = Maturity-read codec event.maturity_date;
  amount = (event.notional_amount, codec.decimal-str event.notional_amount, k.amount);
  clocked = (event.event_timestamp, codec.fromisoformat-isoformat event.event_timestamp, k.clocked);
  texts = k.texts;
}
