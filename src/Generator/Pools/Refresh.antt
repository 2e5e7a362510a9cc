-- ===== src/Generator/Pools/Refresh.antt =====
-- Writes to the book that leave every trade's version and state alone: the business clock, and a
-- same-version resend.
use snowflake_trade_pipeline.Prelude.{
  ℕ, String, ◌≡◌, refl, sym, ◌∙◌, some, string_eq, eq_iff, arith, Option-cases, inl, inr,
}
use snowflake_trade_pipeline.Schema.{TradeEvent}
use snowflake_trade_pipeline.Schema.Codecs.{Codec}
use snowflake_trade_pipeline.Book.{TradeBook, TradeBookEntry, entry_of, record_entry}
use snowflake_trade_pipeline.Book.Identity.{
  IsMinted, record-IsWellKeyed, entry_of-record, entry_of-record_cases,
}
use snowflake_trade_pipeline.Generator.Readable.{IsReadable, IsKept, HasTime}
use snowflake_trade_pipeline.Generator.Run.{
  Generator, known_version, advance_clock, apply_replacement,
}
use snowflake_trade_pipeline.Generator.Pools.{is_live, IsGood, IsReady}

pub record IsRefresh (codec : Codec) (n : ℕ) (old new : TradeBook) : Type 0 where
  pub good : IsGood codec n new
  pub same_live : (k : String) → is_live new k ≡ is_live old k
  pub same_version : (k : String) → known_version new k ≡ known_version old k

pub IsRefresh-refl :
    (codec : Codec) {n : ℕ} (book : TradeBook) → IsGood codec n book → IsRefresh codec n book book
IsRefresh-refl codec book g = record { good = g; same_live = λ k. refl; same_version = λ k. refl }

pub IsRefresh-trans :
    (codec : Codec) {n : ℕ} {a b c : TradeBook}
    → IsRefresh codec n a b
    → IsRefresh codec n b c
    → IsRefresh codec n a c
IsRefresh-trans codec r s = record {
  good = s.good;
  same_live = λ k. s.same_live k ∙ r.same_live k;
  same_version = λ k. s.same_version k ∙ r.same_version k;
}

-- Recording a readable entry keeps a book good.
pub record-IsGood :
    (codec : Codec) {n : ℕ} (book : TradeBook) (entry : TradeBookEntry)
    → IsGood codec n book
    → IsMinted book.next_sequence entry.trade_id
    → IsReadable codec n entry
    → IsGood codec n (record_entry book entry)
record-IsGood codec book entry g m r = record {
  keyed = record-IsWellKeyed book entry g.keyed m;
  numbered = unfold record_entry in g.numbered;
  readable = λ k e h. elim (entry_of-record_cases book entry k h) [
    | inl (named, same) ↦ rw same at r
    | inr old ↦ g.readable k e old
  ];
}

-- An entry that keeps its trade's version and state refreshes the book.
pub record-IsRefresh :
    (codec : Codec) {n : ℕ} (book : TradeBook) (k : String) (e e' : TradeBookEntry)
    → IsGood codec n book
    → entry_of book k ≡ some e
    → e'.trade_id ≡ e.trade_id
    → e'.trade_version ≡ e.trade_version
    → e'.is_cancelled ≡ e.is_cancelled
    → IsReadable codec n e'
    → IsRefresh codec n book (record_entry book e')
unfolding is_live known_version
record-IsRefresh codec book k e e' g held same_id version cancelled r =
    let named : e'.trade_id ≡ k = same_id ∙ g.keyed.keyed k e held in
    record {
      good = record-IsGood codec book e' g (rw named (g.keyed.minted k e held)) r;
      same_live = λ j. ground (arith, entry_of-record book e' j, eq_iff e'.trade_id j);
      same_version = λ j. ground (arith, entry_of-record book e' j, eq_iff e'.trade_id j);
    }

module _ (codec : Codec) where
  -- Moving a trade's business clock changes neither its version nor its state.
  pub advance_clock-IsRefresh :
      {n : ℕ} (book : TradeBook) (event : TradeEvent)
      → HasTime n event.event_timestamp
      → IsGood codec n book
      → IsRefresh codec n book (advance_clock codec book event)
  unfolding advance_clock
  advance_clock-IsRefresh book event time g = elim (Option-cases (entry_of book event.trade_id)) [
    | inl absent ↦ rw (absent, advance_clock) (IsRefresh-refl codec book g)
    | inr (e, held) ↦
        rw (held, advance_clock)
          (let r = g.readable event.trade_id e held in
            record-IsRefresh codec book event.trade_id e
              (record e { last_event_ts = some (codec.isoformat event.event_timestamp) }) g held
              refl refl refl
              (record {
                known_book = r.known_book;
                direction = r.direction;
                dated = r.dated;
                maturity = r.maturity;
                amount = r.amount;
                clocked = (
                  event.event_timestamp,
                  codec.fromisoformat-isoformat event.event_timestamp,
                  time,
                );
                texts = r.texts;
              }))
  ]

  -- Nor does a same-version resend.
  pub apply_replacement-IsRefresh :
      {n : ℕ} (book : TradeBook) (k : String) (e : TradeBookEntry) (event : TradeEvent)
      → IsKept n event
      → IsGood codec n book
      → entry_of book k ≡ some e
      → IsRefresh codec n book (apply_replacement codec book e event)
  unfolding apply_replacement
  apply_replacement-IsRefresh book k e event kept g held =
      let r = g.readable k e held in
      record-IsRefresh codec book k e
        (record e {
          notional_amount = codec.decimal_str event.notional_amount;
          last_event_ts = some (codec.isoformat event.event_timestamp);
        })
        g held refl refl refl
        (record {
          known_book = r.known_book;
          direction = r.direction;
          dated = r.dated;
          maturity = r.maturity;
          amount = (event.notional_amount, codec.decimal-str event.notional_amount, kept.amount);
          clocked = (
            event.event_timestamp,
            codec.fromisoformat-isoformat event.event_timestamp,
            kept.clocked,
          );
          texts = r.texts;
        })

-- A refreshed book leaves the pools as they should be.
pub refresh-IsReady :
    (codec : Codec) {n : ℕ} (g : Generator) (book : TradeBook)
    → IsReady codec n g
    → IsRefresh codec n g.book book
    → IsReady codec n (record g { book = book })
refresh-IsReady codec g book r f = record {
  good = f.good;
  amendable_lem = λ k. r.amendable_lem k ∙ sym (f.same_live k);
  resendable_lem = λ k. rw (f.same_live k, f.same_version k) (r.resendable_lem k);
  replaceable_live = λ k h. f.same_live k ∙ r.replaceable_live k h;
  amendable_once = r.amendable_once;
  resendable_once = r.resendable_once;
  replaceable_once = r.replaceable_once;
}
