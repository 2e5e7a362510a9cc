-- ===== src/Schema/Codecs.antt =====
-- The codecs of Python's standard library that the simulator calls, with the round trips that
-- their documentation states. A codec by tallies shows that the laws can hold.
use snowflake_trade_pipeline.Prelude.{ℕ, zero, suc, String, ◌≡◌, refl, ap, Bool, List, Option, some}

-- A JSON value of a flat payload. `num negative mantissa places` is a number with `places`
-- decimals.
pub data Value : Type 0 where
  null : Value
  num : Bool → ℕ → ℕ → Value
  text : String → Value

pub record Codec : Type 0 where
  -- `datetime.isoformat` and `datetime.fromisoformat`, of aware datetimes
  pub isoformat : ℕ → String
  pub fromisoformat : String → Option ℕ
  pub fromisoformat-isoformat : (t : ℕ) → fromisoformat (isoformat t) ≡ some t
  -- `date.isoformat` and `date.fromisoformat`
  pub date_isoformat : ℕ → String
  pub date_fromisoformat : String → Option ℕ
  pub date_fromisoformat-isoformat : (d : ℕ) → date_fromisoformat (date_isoformat d) ≡ some d
  -- `str(Decimal)` and `Decimal(str)`, of amounts with four decimals
  pub decimal_str : ℕ → String
  pub decimal : String → Option ℕ
  pub decimal-str : (n : ℕ) → decimal (decimal_str n) ≡ some n
  -- `json.dumps`
  pub dumps : List (String × Value) → String
  -- `f"{x:,.2f}"`
  pub grouped : ℕ → String

abbrev pub tally : ℕ → String
tally zero = ""
tally (suc n) = String.◌∷◌ "x" (tally n)

abbrev pub untally : String → ℕ
untally String.[] = 0
untally (String.◌∷◌ c s) = suc (untally s)

pub untally-tally : (n : ℕ) → untally (tally n) ≡ n
untally-tally zero = refl
untally-tally (suc n) = ap suc (untally-tally n)

abbrev pub tallies : Codec
tallies = record {
  isoformat = tally;
  fromisoformat = λ s. some (untally s);
  fromisoformat-isoformat = λ t. ap some (untally-tally t);
  date_isoformat = tally;
  date_fromisoformat = λ s. some (untally s);
  date_fromisoformat-isoformat = λ d. ap some (untally-tally d);
  decimal_str = tally;
  decimal = λ s. some (untally s);
  decimal-str = λ n. ap some (untally-tally n);
  dumps = λ fields. "{\"\": 0}";
  grouped = tally;
}
