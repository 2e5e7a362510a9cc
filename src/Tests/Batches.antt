-- ===== src/Tests/Batches.antt =====
-- Batches generated from the book of the samples, and the parts of one round.
use snowflake_trade_pipeline.Prelude.{false, ℕ, ◌⊎◌, ◌≤◌, ◌+◌, ◌<◌, some, ◌≡◌, refl, [], ◌∷◌, arith}
use snowflake_trade_pipeline.Result.{Returns, ok, err, overflow_error}
use snowflake_trade_pipeline.Schema.{is_trade_id}
use snowflake_trade_pipeline.Schema.Codecs.{tallies}
use snowflake_trade_pipeline.Book.{allocate_trade_id, trade_id_text}
use snowflake_trade_pipeline.Generator.Build.{build_new}
use snowflake_trade_pipeline.Generator.Fields.{
  business_days_from, advance, is_business_day, event_timestamp, drawn_stamp,
}
use snowflake_trade_pipeline.Generator.Faults.{corrupt}
use snowflake_trade_pipeline.Generator.Faults.Returns.{IsCodes, corrupt-Returns}
use snowflake_trade_pipeline.Generator.Clock.{
  dated, longest_gap, IsAdvanced, business_days_from-IsAdvanced, event_timestamp-later,
}
use snowflake_trade_pipeline.Generator.Events.{IsBooked, build_new-IsBooked}
use snowflake_trade_pipeline.Generator.Run.{begin, step, generate}
use snowflake_trade_pipeline.Generator.Step.{IsStep, step-IsStep}
use snowflake_trade_pipeline.Generator.Batch.{IsRun, begin-IsReady, generate-IsRun}
use snowflake_trade_pipeline.Tests.Samples.{
  settings, draws, stamp_draws, book, book-IsStored, event, event-IsSound,
}

-- A late arrival, an amendment and a new trade, with room for two rounds more.
generate-IsRun_example :
    Returns
      (IsRun tallies 2 (begin book) 3)
      (generate tallies settings 40 book (draws 0 ∷ draws 100000 ∷ draws 900000 ∷ []))
generate-IsRun_example =
    generate-IsRun tallies settings 40 (omega arith) (omega arith) 2 book
      (draws 0 ∷ draws 100000 ∷ draws 900000 ∷ []) (omega arith) (omega arith)
      (omega arith, (omega arith, (omega arith, tt))) book-IsStored

step-IsStep_example :
    Returns (IsStep tallies 4 (begin book)) (step tallies settings 40 (begin book) (draws 0))
step-IsStep_example =
    step-IsStep tallies settings 40 4 (begin book) (draws 0)
      (begin-IsReady tallies 5 book (omega arith) book-IsStored) (omega arith) (omega arith)
      (omega arith) (omega arith)

build_new-IsBooked_example :
    Returns
      (λ built.
        IsBooked 4 (allocate_trade_id book).0 built.0 × (built.1 ≡ (allocate_trade_id book).1))
      (build_new tallies settings book 40 (draws 0))
build_new-IsBooked_example =
    build_new-IsBooked tallies settings 4 book 40 (draws 0) (omega arith) (omega arith)
      (omega arith) (omega arith) (omega arith)

corrupt-Returns_example :
    Returns (λ c. IsCodes c.expected_rule_codes) (corrupt tallies event (draws 0).fault)
corrupt-Returns_example = corrupt-Returns tallies event event-IsSound (draws 0).fault

-- Five business days from the ordinal 40, a Friday.
business_days_from-IsAdvanced_example :
    (result : ℕ) × IsAdvanced 40 5 result × (business_days_from 40 5 ≡ dated result)
business_days_from-IsAdvanced_example = business_days_from-IsAdvanced 40 5 (omega arith)

business_days_from_40 : business_days_from 40 5 ≡ ok 47
unfolding business_days_from advance is_business_day
business_days_from_40 = refl

-- The last day of the calendar has none behind it.
business_days_from_last : business_days_from 3652059 1 ≡ err overflow_error
unfolding business_days_from advance is_business_day
business_days_from_last = refl

-- An identifier of ten digits is refused.
ten_digits : is_trade_id (trade_id_text 1000000000) ≡ false
unfolding is_trade_id trade_id_text
ten_digits = refl

event_timestamp-later_example :
    Returns
      (λ stamp.
        (3 < stamp) × (stamp ≡ drawn_stamp 40 stamp_draws)
        ⊎ (3 < stamp) × (stamp ≤ 3 + longest_gap))
      (event_timestamp tallies 40 stamp_draws (some "xxx"))
event_timestamp-later_example =
    event_timestamp-later tallies 40 stamp_draws "xxx" 3 refl (omega arith)
