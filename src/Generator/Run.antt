-- ===== src/Generator/Run.antt =====
-- `TradeGenerator.generate` of ingestion/src/trade_sim/generator.py: the trade book with the three
-- pools of identifiers, and one round of the loop for one event.
use snowflake_trade_pipeline.Prelude.{
  is_empty, ℕ, ◌+◌, String, Bool, true, false, not, ◌&&◌, List, [], ◌∷◌, ◌++◌, map, Option, none,
  some, ltb, if◌then◌else◌, ◌==◌, nat_eq, string_eq, contains, keep,
}
use snowflake_trade_pipeline.Prelude.Dict.{Dict}
use snowflake_trade_pipeline.Result.{Result, ok, err, key_error, value_error, or_raise, ◌>>=◌}
use snowflake_trade_pipeline.Schema.{
  TradeEvent, TradeAction, new, amend, cancel, action_value, direction_value, object, dump,
  GeneratedEvent,
}
use snowflake_trade_pipeline.Schema.Codecs.{Codec}
use snowflake_trade_pipeline.Book.{TradeBook, TradeBookEntry, entry_of, record_entry, amendable}
use snowflake_trade_pipeline.Generator.Draws.{Settings, Draws, happens, choice}
use snowflake_trade_pipeline.Generator.Build.{
  build_new, build_amendment, build_replacement, build_stale,
}
use snowflake_trade_pipeline.Generator.Faults.{
  Corrupt, fault_name, is_warn_only, destroys_identity, corrupt,
}

pub record Generator : Type 0 where
  pub book : TradeBook
  pub amendable_ids : List String
  pub resendable_ids : List String
  pub replaceable_ids : List String

-- What the branch on `roll` gives: the event, whether it mutates the book, and the book.
pub record Emission : Type 0 where
  pub event : TradeEvent
  pub mutates_book : Bool
  pub book : TradeBook

-- `xs.remove(x)`
unfoldable pub drop_first : List String → String → List String
drop_first [] k = []
drop_first (x ∷ xs) k = if x == k then xs else x ∷ drop_first xs k

unfoldable pub remove_id : List String → String → Result (List String)
remove_id xs k = if contains xs k then ok (drop_first xs k) else err value_error

-- `if x in xs: xs.remove(x)`
unfoldable pub discard_id : List String → String → List String
discard_id xs k = if contains xs k then drop_first xs k else xs

unfoldable pub known_version : TradeBook → String → ℕ
known_version book trade_id = elim (entry_of book trade_id) [ none ↦ 0 | some e ↦ e.trade_version ]

abbrev trade_ids : List TradeBookEntry → List String
trade_ids = map (λ e. e.trade_id)

-- The state in front of the loop.
unfoldable pub begin : TradeBook → Generator
begin book = record {
  book = book;
  amendable_ids = trade_ids (amendable book);
  resendable_ids = trade_ids (keep (λ e. ltb 1 e.trade_version) (amendable book));
  replaceable_ids = [];
}

-- `self._versions_at_batch_start`
unfoldable pub versions_at_start : TradeBook → Dict String ℕ
versions_at_start book = map (λ p. (p.0, p.1.trade_version)) book.trades

module _ (codec : Codec) where
  unfoldable pub book_entry : TradeEvent → TradeBookEntry
  book_entry event = record {
    trade_id = event.trade_id;
    trade_version = event.trade_version;
    product_type = event.product_type;
    counterparty_id = event.counterparty_id;
    book_id = event.book_id;
    notional_currency = event.notional_currency;
    settlement_currency = event.settlement_currency;
    buy_sell = direction_value event.buy_sell;
    notional_amount = codec.decimal_str event.notional_amount;
    trade_date = codec.date_isoformat event.trade_date;
    maturity_date = elim event.maturity_date [
      | none ↦ none
      | some d ↦ some (codec.date_isoformat d)
    ];
    uti = event.uti;
    is_cancelled = elim event.action [ cancel ↦ true | _ ↦ false ];
    last_event_ts = some (codec.isoformat event.event_timestamp);
  }

  -- `_apply_to_book`
  unfoldable pub apply_to_book : TradeBook → TradeEvent → TradeBook
  apply_to_book book event = record_entry book (book_entry event)

  -- `_apply_replacement`
  unfoldable pub apply_replacement : TradeBook → TradeBookEntry → TradeEvent → TradeBook
  apply_replacement book entry event = record_entry book (record entry {
    notional_amount = codec.decimal_str event.notional_amount;
    last_event_ts = some (codec.isoformat event.event_timestamp);
  })

  -- `self.book.trades[event.trade_id].last_event_ts = …`, for a trade that the book holds. The
  -- entry stands under its own identifier.
  unfoldable pub advance_clock : TradeBook → TradeEvent → TradeBook
  advance_clock book event = elim (entry_of book event.trade_id) [
    | none ↦ book
    | some e ↦
        record_entry book
          (record e { last_event_ts = some (codec.isoformat event.event_timestamp) })
  ]

  module _ (settings : Settings) (as_of : ℕ) where
    unfoldable pub picked : TradeBook → List String → Draws → Result TradeBookEntry
    picked book pool d = do
      trade_id ← choice pool d.pick
      or_raise key_error (entry_of book trade_id)

    unfoldable pub emit_stale : Generator → Draws → Result Emission
    unfolding picked
    emit_stale g d = do
      entry ← picked g.book g.resendable_ids d
      event ← build_stale codec settings entry as_of d
      ok (record { event = event; mutates_book = false; book = g.book })

    unfoldable pub emit_replacement : Generator → Draws → Result Emission
    unfolding picked
    emit_replacement g d = do
      entry ← picked g.book g.replaceable_ids d
      event ← build_replacement codec settings entry as_of d
      ok (record {
        event = event;
        mutates_book = false;
        book = apply_replacement g.book entry event;
      })

    unfoldable pub emit_amendment : Generator → Draws → Result Emission
    unfolding picked
    emit_amendment g d = do
      entry ← picked g.book g.amendable_ids d
      event ← build_amendment codec settings entry as_of d (happens settings.cancel_rate d.cancel)
      ok (record { event = event; mutates_book = true; book = g.book })

    unfoldable pub emit_new : Generator → Draws → Result Emission
    emit_new g d = do
      built ← build_new codec settings g.book as_of d
      ok (record { event = built.0; mutates_book = true; book = built.1 })

    -- The branch on `roll`.
    unfoldable pub emit : Generator → Draws → Result Emission
    emit g d =
        let stale = settings.stale_version_rate in
        if not (is_empty g.resendable_ids) && happens stale d.roll
        then emit_stale g d
        else if not (is_empty g.replaceable_ids) && happens (stale + settings.replace_rate) d.roll
        then emit_replacement g d
        else if not (is_empty g.amendable_ids)
            && happens (stale + settings.replace_rate + settings.amend_rate) d.roll
        then emit_amendment g d
        else emit_new g d

    unfoldable pub maybe_corrupt : TradeEvent → Draws → Result (Option Corrupt)
    maybe_corrupt event d =
        if happens settings.error_rate d.error
        then (do c ← corrupt codec event d.fault; ok (some c))
        else ok none

  -- `corrupt is None or is_warn_only`
  unfoldable pub is_accepted : Option Corrupt → Bool
  is_accepted none = true
  is_accepted (some c) = is_warn_only c.injected_fault

  -- The update of the pools after an event that the book has taken.
  unfoldable pub update_pools : Generator → TradeEvent → TradeAction → Result Generator
  update_pools g event new = ok (record g {
    amendable_ids = g.amendable_ids ++ event.trade_id ∷ [];
    replaceable_ids = g.replaceable_ids ++ event.trade_id ∷ [];
  })
  update_pools g event amend =
      if event.trade_version == 2
      then ok (record g { resendable_ids = g.resendable_ids ++ event.trade_id ∷ [] })
      else ok g
  update_pools g event cancel = do
    remaining ← remove_id g.amendable_ids event.trade_id
    ok (record g {
      amendable_ids = remaining;
      replaceable_ids = discard_id g.replaceable_ids event.trade_id;
      resendable_ids = discard_id g.resendable_ids event.trade_id;
    })

  unfoldable pub settle_book : Generator → Emission → Option Corrupt → Result Generator
  settle_book g e c =
      let clocked = advance_clock e.book e.event in
      if e.mutates_book && is_accepted c
      then update_pools (record g { book = apply_to_book clocked e.event }) e.event e.event.action
      else ok (record g { book = clocked })

  -- The two `yield`s.
  unfoldable pub generated : Bool → TradeEvent → Option Corrupt → GeneratedEvent
  generated is_stale event none = record {
    payload = object (dump codec event);
    trade_id = some event.trade_id;
    trade_version = some event.trade_version;
    action = some (action_value event.action);
    injected_fault = none;
    expected_verdict = if is_stale then "REJECTED" else "ACCEPTED";
    expected_rule_codes = if is_stale then "RJ001" ∷ [] else [];
    field_valid = true;
  }
  generated is_stale event (some c) =
      let identifiable = not (destroys_identity c.injected_fault) in
      let is_late = is_stale && identifiable in
      let warn = is_warn_only c.injected_fault in
      record {
        payload = c.payload;
        trade_id = c.trade_id;
        trade_version = if identifiable then some event.trade_version else none;
        action = if identifiable then some (action_value event.action) else none;
        injected_fault = some (fault_name c.injected_fault);
        expected_verdict = if warn && not is_late then "ACCEPTED" else "REJECTED";
        expected_rule_codes = if is_late then "RJ001" ∷ [] else c.expected_rule_codes;
        field_valid = warn;
      }

  module _ (settings : Settings) (as_of : ℕ) where
    -- One round of the loop.
    unfoldable pub step : Generator → Draws → Result (GeneratedEvent × Generator)
    step g d = do
      e ← emit settings as_of g d
      c ← maybe_corrupt settings as_of e.event d
      g' ← settle_book g e c
      let is_stale = ltb e.event.trade_version (known_version g'.book e.event.trade_id)
      ok (generated is_stale e.event c, g')

    unfoldable pub run : Generator → List Draws → Result (List GeneratedEvent × Generator)
    run g [] = ok ([], g)
    run g (d ∷ ds) = do first ← step g d; rest ← run first.1 ds; ok (first.0 ∷ rest.0, rest.1)

    -- `generate(count)`, with the draws of `count` events.
    unfoldable pub generate : TradeBook → List Draws → Result (List GeneratedEvent × Generator)
    generate book draws = run (begin book) draws
