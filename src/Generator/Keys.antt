-- ===== src/Generator/Keys.antt =====
-- A book is a dictionary: through all that `generate` of ingestion/src/trade_sim/generator.py does
-- with it, each identifier stands in it once.
use snowflake_trade_pipeline.Prelude.{
  ℕ, ◌+◌, String, ◌≡◌, refl, inl, inr, false, not, ◌&&◌, ◌||◌, List, [], ◌∷◌, Option, none, some,
  ◌==◌, ==_apart, string_eq, nat_eq, eq_iff, arith, contains, is_empty, Bool-cases, Option-cases,
}
use snowflake_trade_pipeline.Prelude.Dict.{Dict, keys, insert}
use snowflake_trade_pipeline.Result.{Result, ok, ◌>>=◌, Yields, Yields-bind, Yields-any}
use snowflake_trade_pipeline.Schema.{TradeEvent, TradeAction, new, amend, cancel}
use snowflake_trade_pipeline.Schema.Codecs.{Codec}
use snowflake_trade_pipeline.Book.{
  TradeBook, TradeBookEntry, entry_of, record_entry, allocate_trade_id,
}
use snowflake_trade_pipeline.Generator.Draws.{Settings, Draws, happens}
use snowflake_trade_pipeline.Generator.Fields.{new_trade_fields, event_timestamp}
use snowflake_trade_pipeline.Generator.Build.{
  trade_event, build_new, build_amendment, build_replacement, build_stale,
}
use snowflake_trade_pipeline.Generator.Faults.{Corrupt}
use snowflake_trade_pipeline.Generator.Run.{
  Generator, Emission, begin, picked, apply_to_book, apply_replacement, advance_clock, book_entry,
  emit, emit_new, emit_stale, emit_amendment, emit_replacement, maybe_corrupt, is_accepted,
  update_pools, settle_book, step, run, generate, remove_id,
}

abbrev pub AreOnce : Dict String TradeBookEntry → Type 0
AreOnce [] = Unit
AreOnce ((k, e) ∷ d) = (contains (keys d) k ≡ false) × AreOnce d

contains-keys-insert :
    (d : Dict String TradeBookEntry) (k j : String) (e : TradeBookEntry)
    → contains (keys (insert d k e)) j ≡ (k == j || contains (keys d) j)
unfolding contains insert
contains-keys-insert [] k j e = refl
contains-keys-insert ((i, f) ∷ d) k j e =
    ground (arith, contains-keys-insert d k j e, eq_iff i k, eq_iff i j, eq_iff k j)

pub AreOnce-insert :
    (d : Dict String TradeBookEntry) (k : String) (e : TradeBookEntry)
    → AreOnce d
    → AreOnce (insert d k e)
unfolding insert contains
AreOnce-insert [] k e h = (refl, tt)
AreOnce-insert ((i, f) ∷ d) k e h = elim (Bool-cases (i == k)) [
  | inl c ↦ rw c h
  | inr c ↦
      rw c (
        ground (arith, contains-keys-insert d k i e, ==_apart i k c, h.0),
        AreOnce-insert d k e h.1,
      )
]

abbrev pub IsDict : TradeBook → Type 0
IsDict book = AreOnce book.trades

record_entry-IsDict :
    (book : TradeBook) (e : TradeBookEntry) → IsDict book → IsDict (record_entry book e)
unfolding record_entry
record_entry-IsDict book e h = AreOnce-insert book.trades e.trade_id e h

-- Two calls that say nothing of the result, and a result that satisfies `P`.
after_two :
    {A B C : Type 0} (P : C → Type 0) (m : Result A) (f : A → Result B) (k : A → B → C)
    → ((a : A) (b : B) → P (k a b))
    → Yields P (m >>= λ a. f a >>= λ b. ok (k a b))
after_two P m f k h =
    Yields-bind (λ _. Unit {0}) P m _ (Yields-any m)
      λ a _. Yields-bind (λ _. Unit {0}) P (f a) _ (Yields-any (f a)) λ b _. h a b

abbrev HasDict : Emission → Type 0
HasDict e = IsDict e.book

module _ (codec : Codec) where
  advance_clock-IsDict :
      (book : TradeBook) (event : TradeEvent)
      → IsDict book
      → IsDict (advance_clock codec book event)
  unfolding advance_clock
  advance_clock-IsDict book event h = elim (Option-cases (entry_of book event.trade_id)) [
    | inl c ↦ rw (c, advance_clock) h
    | inr (e, c) ↦
        rw (c, advance_clock)
          (record_entry-IsDict book
            (record e { last_event_ts = some (codec.isoformat event.event_timestamp) }) h)
  ]

  update_pools-Yields :
      (g : Generator) (event : TradeEvent) (action : TradeAction)
      → IsDict g.book
      → Yields (λ g'. IsDict g'.book) (update_pools codec g event action)
  unfolding update_pools
  update_pools-Yields g event new h = h
  update_pools-Yields g event amend h = elim (Bool-cases (event.trade_version == 2)) [
    | inl c ↦ rw c h
    | inr c ↦ rw c h
  ]
  update_pools-Yields g event cancel h =
      Yields-bind (λ _. Unit {0}) (λ g'. IsDict g'.book) (remove_id g.amendable_ids event.trade_id)
        _ (Yields-any (remove_id g.amendable_ids event.trade_id)) λ remaining _. h

  settle_book-Yields :
      (g : Generator) (e : Emission) (c : Option Corrupt)
      → IsDict e.book
      → Yields (λ g'. IsDict g'.book) (settle_book codec g e c)
  unfolding settle_book apply_to_book
  settle_book-Yields g e c h =
      let clocked = advance_clock codec e.book e.event in
      let once = advance_clock-IsDict e.book e.event h in
      elim (Bool-cases (e.mutates_book && is_accepted codec c)) [
        | inl b ↦ rw b (
            update_pools-Yields
              (record g { book = record_entry clocked (book_entry codec e.event) }) e.event
              e.event.action (record_entry-IsDict clocked (book_entry codec e.event) once))
        | inr b ↦ rw b once
      ]

  module _ (settings : Settings) (as_of : ℕ) where
    emit_new-Yields :
        (g : Generator) (d : Draws)
        → IsDict g.book
        → Yields (λ e. IsDict e.book) (emit_new codec settings as_of g d)
    unfolding emit_new build_new allocate_trade_id
    emit_new-Yields g d h =
        Yields-bind (λ built. IsDict built.1) (λ e. IsDict e.book)
          (build_new codec settings g.book as_of d) _
          (Yields-bind (λ _. Unit {0}) (λ built. IsDict built.1)
            (new_trade_fields settings as_of d.fields) _ (Yields-any _)
            λ fields _.
              Yields-bind (λ _. Unit {0}) (λ built. IsDict built.1)
                (event_timestamp codec as_of d.stamp none) _ (Yields-any _)
                λ stamp _.
                  Yields-bind (λ _. Unit {0}) (λ built. IsDict built.1) (trade_event _ fields) _
                    (Yields-any (trade_event _ fields)) λ event _. h)
          λ built b. b

    emit-Yields :
        (g : Generator) (d : Draws)
        → IsDict g.book
        → Yields (λ e. IsDict e.book) (emit codec settings as_of g d)
    unfolding emit emit_stale emit_replacement emit_amendment apply_replacement
    emit-Yields g d h =
        let stale = settings.stale_version_rate in
        elim (Bool-cases (not (is_empty g.resendable_ids) && happens stale d.roll)) [
          | inl b ↦ rw b (
              after_two HasDict (picked codec settings as_of g.book g.resendable_ids d)
                (λ entry. build_stale codec settings entry as_of d) _ λ _ _. h)
          | inr b ↦
              rw b
                (elim (Bool-cases (
                  not (is_empty g.replaceable_ids)
                  && happens (stale + settings.replace_rate) d.roll)) [
                    | inl c ↦ rw c (
                        after_two HasDict (picked codec settings as_of g.book g.replaceable_ids d)
                          (λ entry. build_replacement codec settings entry as_of d) _
                          λ entry event. record_entry-IsDict g.book _ h)
                    | inr c ↦
                        rw c
                          (elim (Bool-cases (
                            not (is_empty g.amendable_ids)
                            && happens (stale + settings.replace_rate + settings.amend_rate)
                                d.roll)) [
                                  | inl a ↦ rw a (
                                      after_two HasDict
                                        (picked codec settings as_of g.book g.amendable_ids d)
                                        (λ entry.
                                          build_amendment codec settings entry as_of d
                                            (happens settings.cancel_rate d.cancel))
                                        _ λ _ _. h)
                                  | inr a ↦ rw a (emit_new-Yields g d h)
                                ])
                  ])
        ]

    step-Yields :
        (g : Generator) (d : Draws)
        → IsDict g.book
        → Yields (λ out. IsDict out.1.book) (step codec settings as_of g d)
    unfolding step
    step-Yields g d h =
        Yields-bind (λ e. IsDict e.book) (λ out. IsDict out.1.book) (emit codec settings as_of g d)
          _ (emit-Yields g d h)
          λ e once.
            Yields-bind (λ _. Unit {0}) (λ out. IsDict out.1.book)
              (maybe_corrupt codec settings as_of e.event d) _
              (Yields-any (maybe_corrupt codec settings as_of e.event d))
              λ c _.
                Yields-bind (λ g'. IsDict g'.book) (λ out. IsDict out.1.book)
                  (settle_book codec g e c) _ (settle_book-Yields g e c once) λ g' settled. settled

    run-Yields :
        (g : Generator) (draws : List Draws)
        → IsDict g.book
        → Yields (λ out. IsDict out.1.book) (run codec settings as_of g draws)
    unfolding run
    run-Yields g [] h = h
    run-Yields g (d ∷ ds) h =
        Yields-bind (λ out. IsDict out.1.book) (λ out. IsDict out.1.book)
          (step codec settings as_of g d) _ (step-Yields g d h)
          λ first once.
            Yields-bind (λ out. IsDict out.1.book) (λ out. IsDict out.1.book)
              (run codec settings as_of first.1 ds) _ (run-Yields first.1 ds once) λ rest all. all

    pub generate-Yields :
        (book : TradeBook) (draws : List Draws)
        → IsDict book
        → Yields (λ out. IsDict out.1.book) (generate codec settings as_of book draws)
    unfolding generate begin
    generate-Yields book draws h = run-Yields (begin book) draws h
