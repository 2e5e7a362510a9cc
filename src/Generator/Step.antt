-- ===== src/Generator/Step.antt =====
-- One round of `generate` in ingestion/src/trade_sim/generator.py: it never raises, it keeps the
-- pools exact and the versions growing, and it calls an event late exactly on the stale branch.
use snowflake_trade_pipeline.Prelude.{
  ℕ, suc, ◌<◌, ◌≤◌, String, ◌≡◌, ap, Option, none, some, string_eq, nat_eq, Bool-cases, inl, inr,
}
use snowflake_trade_pipeline.Result.{Returns, Returns-bind}
use snowflake_trade_pipeline.Schema.{TradeEvent, GeneratedEvent}
use snowflake_trade_pipeline.Schema.Codecs.{Codec}
use snowflake_trade_pipeline.Generator.Draws.{Settings, Draws, happens}
use snowflake_trade_pipeline.Generator.Faults.{Corrupt, corrupt}
use snowflake_trade_pipeline.Generator.Faults.Returns.{IsCodes, corrupt-Returns}
use snowflake_trade_pipeline.Generator.Readable.{first_day, last_day, most_rounds, HasRoom, IsSound}
use snowflake_trade_pipeline.Generator.Run.{
  Generator, Emission, known_version, emit, maybe_corrupt, settle_book, generated, step,
}
use snowflake_trade_pipeline.Generator.Pools.{IsReady, IsReady-weaken}
use snowflake_trade_pipeline.Generator.Emit.{emit-Returns}
use snowflake_trade_pipeline.Generator.Kinds.{Kind, IsEmission}
use snowflake_trade_pipeline.Generator.Settling.{is_late, settle_book-IsSettled, IsSettled}

-- The codes of the fault that was injected, if one was.
abbrev pub IsFaulted : Option Corrupt → Type 0
IsFaulted none = Unit
IsFaulted (some c) = IsCodes c.expected_rule_codes

-- What one round gives: an event with the verdict of its branch, and a state to go on from.
pub record IsStep (codec : Codec) (n : ℕ) (g : Generator) (out : GeneratedEvent × Generator)
    : Type 0 where
  pub emission : Emission
  pub fault : Option Corrupt
  pub kind : Kind g emission
  pub ready : IsReady codec n out.1
  pub grows : (k : String) → known_version g.book k ≤ known_version out.1.book k
  pub fault_codes : IsFaulted fault
  pub event_lem : out.0 ≡ generated codec (is_late kind) emission.event fault

module _ (codec : Codec) (settings : Settings) (as_of : ℕ) where
  maybe_corrupt-Returns :
      (event : TradeEvent) (d : Draws)
      → IsSound event
      → Returns IsFaulted (maybe_corrupt codec settings as_of event d)
  unfolding maybe_corrupt
  maybe_corrupt-Returns event d s = elim (Bool-cases (happens settings.error_rate d.error)) [
    | inl c ↦ rw c (
        Returns-bind (λ f. IsCodes f.expected_rule_codes) IsFaulted (corrupt codec event d.fault) _
          (corrupt-Returns codec event s d.fault) (λ _ h. h))
    | inr c ↦ rw c tt
  ]

  -- From a state whose pools are exact and whose book has room for `n + 1` rounds, on a day that
  -- neither faults nor tenors can push off the calendar, and with a notional drawn that has room for
  -- `n` amendments, a round returns; its pools are exact again with room for `n` rounds, no version
  -- falls, and the event is called late exactly if the stale branch made it.
  pub step-IsStep :
      (n : ℕ) (g : Generator) (d : Draws)
      → IsReady codec (suc n) g
      → first_day ≤ as_of
      → as_of ≤ last_day
      → n < most_rounds
      → HasRoom n d.fields.notional
      → Returns (IsStep codec n g) (step codec settings as_of g d)
  unfolding step
  step-IsStep n g d r late early few drawn =
      Returns-bind (IsEmission codec n g) (IsStep codec n g) (emit codec settings as_of g d) _
        (emit-Returns codec settings as_of early n few g d drawn r late)
        λ e i.
          Returns-bind IsFaulted (IsStep codec n g) (maybe_corrupt codec settings as_of e.event d) _
            (maybe_corrupt-Returns e.event d i.kept.sound)
            λ c f.
              Returns-bind (IsSettled codec n g e (is_late i.kind)) (IsStep codec n g)
                (settle_book codec g e c) _
                (settle_book-IsSettled codec n g e (IsReady-weaken codec n g r) i c)
                λ g' s. record {
                  emission = e;
                  fault = c;
                  fault_codes = f;
                  kind = i.kind;
                  ready = s.ready;
                  grows = s.grows;
                  event_lem = ap (λ b. generated codec b e.event c) s.lateness;
                }
