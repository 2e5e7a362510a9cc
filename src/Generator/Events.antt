-- ===== src/Generator/Events.antt =====
-- The events that are built from a readable entry: their identity and version, on every branch, and
-- that the construction returns.
use snowflake_trade_pipeline.Prelude.{
  ℕ, suc, ◌+◌, ◌-◌, ◌<◌, ◌≤◌, String, ◌≡◌, refl, Bool, true, false, none, some, arith, max, lt→ltb,
  if◌then◌else◌, string_eq,
}
use snowflake_trade_pipeline.Result.{ok, Returns, Returns-bind}
use snowflake_trade_pipeline.Schema.{TradeEvent, TradeAction, new, amend, cancel, is_valid}
use snowflake_trade_pipeline.Schema.Codecs.{Codec}
use snowflake_trade_pipeline.Book.{TradeBook, TradeBookEntry, allocate_trade_id}
use snowflake_trade_pipeline.Book.Format.{trade_id_text-is_trade_id}
use snowflake_trade_pipeline.Generator.Draws.{Settings, Draws, randint, randint_bounds}
use snowflake_trade_pipeline.Generator.Fields.{business_days_from}
use snowflake_trade_pipeline.Generator.Clock.{business_days_from-Returns}
use snowflake_trade_pipeline.Generator.Build.{
  booked_maturity, amended_notional, trade_event, build_new, build_amendment, build_replacement,
  build_stale, validated,
}
use snowflake_trade_pipeline.Generator.Readable.{
  first_day, last_day, most_rounds, HasRoom, HasTime, IsReadable, IsKept,
}
use snowflake_trade_pipeline.Generator.Fresh.{IsFresh, new_trade_fields-IsFresh}
use snowflake_trade_pipeline.Generator.Ingredients.{
  make_uti-is_uti, adjusted-Returns, stamp-Returns, maturity-Returns,
}

-- What an event built from `entry` keeps of it, at the version and the action of its branch.
pub record IsBuiltFrom (n : ℕ) (entry : TradeBookEntry) (version : ℕ) (action : TradeAction)
    (event : TradeEvent) : Type 0 where
  pub same_trade : event.trade_id ≡ entry.trade_id
  pub versioned : event.trade_version ≡ version
  pub acted : event.action ≡ action
  pub same_uti : event.uti ≡ entry.uti
  pub same_product : event.product_type ≡ entry.product_type
  pub same_book : event.book_id ≡ entry.book_id
  pub kept : IsKept n event

abbrev pub IsStale : ℕ → TradeBookEntry → TradeEvent → Type 0
IsStale n entry event =
    (v : ℕ) × IsBuiltFrom n entry v amend event × (1 ≤ v) × (v < entry.trade_version)

pub record IsBooked (n : ℕ) (trade_id : String) (event : TradeEvent) : Type 0 where
  pub minted : event.trade_id ≡ trade_id
  pub versioned : event.trade_version ≡ 1
  pub acted : event.action ≡ new
  pub kept : IsKept n event

module _ (codec : Codec) (settings : Settings) where
  notional-Returns :
      (n : ℕ) (entry : TradeBookEntry) (d : Draws) (is_cancel : Bool) (fresh : ℕ)
      → (a : ℕ) × (codec.decimal entry.notional_amount ≡ some a) × HasRoom (suc n) a
      → HasRoom n fresh
      → Returns (HasRoom n) (amended_notional codec entry d is_cancel fresh)
  unfolding amended_notional
  notional-Returns n entry d true fresh r f = f
  notional-Returns n entry d false fresh (a, e, room) f = rw e (
      adjusted-Returns n a (randint 8500 11500 d.adjustment) room
        (omega (arith, randint_bounds 8500 11500 d.adjustment (omega arith))))

  -- On a day of the calendar from the 31st on that leaves room for every tenor, and where the number
  -- allocated has nine digits at most and the notional drawn has room for `n` amendments, a booking
  -- returns, under the identifier that the book allocates and at version 1, and the book has moved
  -- on. The event passes the checks of the schema and leaves room for `n` rounds.
  pub build_new-IsBooked :
      (n : ℕ) (book : TradeBook) (as_of : ℕ) (d : Draws)
      → first_day ≤ as_of
      → as_of ≤ last_day
      → n < most_rounds
      → book.next_sequence < 1000000000
      → HasRoom n d.fields.notional
      → Returns
          (λ built.
            IsBooked n (allocate_trade_id book).0 built.0 × (built.1 ≡ (allocate_trade_id book).1))
          (build_new codec settings book as_of d)
  unfolding build_new trade_event validated is_valid allocate_trade_id
  build_new-IsBooked n book as_of d late early few numbered room =
      let id = trade_id_text-is_trade_id book.next_sequence numbered in
      let uti = make_uti-is_uti book.next_sequence d.uti numbered in
      Returns-bind (IsFresh as_of d.fields) _ _ _
        (new_trade_fields-IsFresh settings as_of d.fields early)
        λ fields fresh.
          Returns-bind (HasTime n) _ _ _ (stamp-Returns codec n as_of d.stamp none early few tt)
            λ stamp time.
              rw (id, uti, fresh.2, fresh.3)
                (
                  record {
                    minted = refl;
                    versioned = refl;
                    acted = refl;
                    kept = record {
                      sound = record { known_book = fresh.0; dated = omega (arith, fresh.1) };
                      early = omega (arith, fresh.1);
                      amount = rw fresh.4 room;
                      clocked = time;
                      texts = (id, uti, fresh.2, fresh.3);
                    };
                  },
                  refl,
                )

  pub build_amendment-IsBuiltFrom :
      (n : ℕ) (entry : TradeBookEntry) (as_of : ℕ) (d : Draws) (is_cancel : Bool)
      → as_of ≤ last_day
      → n < most_rounds
      → HasRoom n d.fields.notional
      → IsReadable codec (suc n) entry
      → Returns
          (IsBuiltFrom n entry (entry.trade_version + 1) (if is_cancel then cancel else amend))
          (build_amendment codec settings entry as_of d is_cancel)
  unfolding build_amendment trade_event validated is_valid
  build_amendment-IsBuiltFrom n entry as_of d is_cancel early few drawn r =
      let (day, dated, late, soon) = r.dated in
      let (x, directed) = r.direction in
      let (id, uti, notional, settlement) = r.texts in
      Returns-bind (IsFresh as_of d.fields) _ _ _
        (new_trade_fields-IsFresh settings as_of d.fields early)
        λ fields fresh. rw dated (
          Returns-bind (λ _. Unit {0}) _ (booked_maturity codec entry.maturity_date) _
            (maturity-Returns codec entry.maturity_date r.maturity)
            λ _ _.
              Returns-bind (λ _. Unit {0}) _ (business_days_from day 2) _
                (business_days_from-Returns day 2 (omega arith))
                λ _ _.
                  Returns-bind (HasRoom n) _ _ _
                    (notional-Returns n entry d is_cancel fields.notional_amount r.amount
                      (rw fresh.4 drawn))
                    λ amount room.
                      Returns-bind (HasTime n) _ _ _
                        (stamp-Returns codec n as_of d.stamp entry.last_event_ts early few
                          r.clocked)
                        λ stamp time.
                          rw
                            (
                              directed,
                              id,
                              lt→ltb 0 (entry.trade_version + 1) (omega arith),
                              uti,
                              notional,
                              settlement,
                            )
                            (record {
                              same_trade = refl;
                              versioned = refl;
                              acted = refl;
                              same_uti = refl;
                              same_product = refl;
                              same_book = refl;
                              kept = record {
                                sound = record { known_book = r.known_book; dated = late };
                                early = soon;
                                amount = room;
                                clocked = time;
                                texts = r.texts;
                              };
                            }))

  -- `model_copy` changes the version alone.
  reversioned :
      (n : ℕ) (entry : TradeBookEntry) (v w : ℕ) (event : TradeEvent)
      → IsBuiltFrom n entry v amend event
      → IsBuiltFrom n entry w amend (record event { trade_version = w })
  reversioned n entry v w event b = record {
    same_trade = b.same_trade;
    versioned = refl;
    acted = b.acted;
    same_uti = b.same_uti;
    same_product = b.same_product;
    same_book = b.same_book;
    kept = record {
      sound = record { known_book = b.kept.sound.known_book; dated = b.kept.sound.dated };
      early = b.kept.early;
      amount = b.kept.amount;
      clocked = b.kept.clocked;
      texts = b.kept.texts;
    };
  }

  -- So does a same-version resend, with the version that the book holds.
  pub build_replacement-IsBuiltFrom :
      (n : ℕ) (entry : TradeBookEntry) (as_of : ℕ) (d : Draws)
      → as_of ≤ last_day
      → n < most_rounds
      → HasRoom n d.fields.notional
      → IsReadable codec (suc n) entry
      → Returns
          (IsBuiltFrom n entry entry.trade_version amend)
          (build_replacement codec settings entry as_of d)
  unfolding build_replacement
  build_replacement-IsBuiltFrom n entry as_of d early few drawn r =
      Returns-bind _ (IsBuiltFrom n entry entry.trade_version amend) _
        (λ event. ok (record event { trade_version = entry.trade_version }))
        (build_amendment-IsBuiltFrom n entry as_of d false early few drawn r)
        (λ event b. reversioned n entry (entry.trade_version + 1) entry.trade_version event b)

  pub build_stale-IsStale :
      (n : ℕ) (entry : TradeBookEntry) (as_of : ℕ) (d : Draws)
      → as_of ≤ last_day
      → n < most_rounds
      → HasRoom n d.fields.notional
      → IsReadable codec (suc n) entry
      → 1 < entry.trade_version
      → Returns (IsStale n entry) (build_stale codec settings entry as_of d)
  unfolding build_stale
  build_stale-IsStale n entry as_of d early few drawn r more =
      let (low, high) = randint_bounds 1 2 d.stale_gap (omega arith) in
      let version = max 1 (entry.trade_version - randint 1 2 d.stale_gap) in
      Returns-bind _ (IsStale n entry) _ (λ event. ok (record event { trade_version = version }))
        (build_amendment-IsBuiltFrom n entry as_of d false early few drawn r)
        λ event b. (
          version,
          reversioned n entry (entry.trade_version + 1) version event b,
          omega arith,
          omega arith,
        )
