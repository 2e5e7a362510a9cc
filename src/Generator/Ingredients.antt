-- ===== src/Generator/Ingredients.antt =====
-- What the construction of an event in ingestion/src/trade_sim/generator.py puts together: the UTI,
-- an amended notional, a business time and a maturity, each within its bounds.
use snowflake_trade_pipeline.Prelude.{
  ℕ, zero, suc, ◌+◌, ◌*◌, ◌/◌, ◌<◌, ◌≤◌, String, ◌≡◌, refl, true, Option, none, some, arith, lt→ltb,
  ◌==◌, string_eq, Bool-cases, inl, inr,
}
use snowflake_trade_pipeline.Result.{Returns, Returns-weaken}
use snowflake_trade_pipeline.Schema.{char_count, is_digit, is_digits, is_uti, is_trade_id}
use snowflake_trade_pipeline.Schema.Codecs.{Codec}
use snowflake_trade_pipeline.Book.{trade_id_text, zero_padded}
use snowflake_trade_pipeline.Book.Format.{trade_id_text-is_trade_id, length-zero_padded}
use snowflake_trade_pipeline.Generator.Draws.{StampDraws, randint, randint_bounds}
use snowflake_trade_pipeline.Generator.Fields.{event_timestamp}
use snowflake_trade_pipeline.Generator.Clock.{drawn_stamp-bound, event_timestamp-later}
use snowflake_trade_pipeline.Generator.Build.{
  booked_maturity, make_uti, without_dashes, behind, half_even, quantized, adjusted, precision,
}
use snowflake_trade_pipeline.Generator.Readable.{
  last_day, most_rounds, Reads, HasRoom, HasRoom-less, HasRoom-now, HasTime, HasClock,
}

length-behind : (s t : String) → char_count (behind s t) ≡ char_count s + char_count t
unfolding char_count
length-behind String.[] t = omega arith
length-behind (String.◌∷◌ c s) t = omega (arith, length-behind s t)

length-without_dashes :
    (n : ℕ) (s : String) → is_digits n s ≡ true → char_count (without_dashes s) ≡ n
unfolding is_digits is_digit char_count
length-without_dashes zero String.[] h = refl
length-without_dashes zero (String.◌∷◌ c s) h = cc
length-without_dashes (suc n) String.[] h = cc
length-without_dashes (suc n) (String.◌∷◌ c s) h = ground (arith, length-without_dashes n s)

-- The UTI of a minted identifier has a length between the bounds of the schema.
pub make_uti-is_uti :
    (n draw : ℕ) → n < 1000000000 → is_uti (make_uti (trade_id_text n) draw) ≡ true
unfolding make_uti is_uti char_count trade_id_text is_trade_id
make_uti-is_uti n draw h =
    let digits : is_digits 9 (zero_padded 9 n) ≡ true = trade_id_text-is_trade_id n h in
    let number = randint 1000 9999 draw in
    let short =
      length-zero_padded number (omega (arith, randint_bounds 1000 9999 draw (omega arith))) in
    let behind_id = without_dashes (zero_padded 9 n) in
    ground (
      arith,
      length-behind behind_id (zero_padded 0 number),
      length-without_dashes 9 (zero_padded 9 n) digits,
      short,
    )

-- The largest amendment keeps room for the rounds behind it.
pub adjusted-Returns :
    (n amount factor : ℕ)
    → HasRoom (suc n) amount
    → factor ≤ 11500
    → Returns (HasRoom n) (adjusted amount factor)
unfolding adjusted quantized half_even
adjusted-Returns n amount factor room h =
    let product = amount * factor in
    let below : product ≤ amount * 11500 = grind arith in
    let now = HasRoom-now (suc n) amount room in
    let whole = half_even 10000 product in
    let high : whole ≤ amount * 23 / 20 + 1 = ground arith in
    rw (lt→ltb product precision (omega arith), lt→ltb whole precision (omega arith))
      (HasRoom-less n amount whole high room)

module _ (codec : Codec) where
  pub stamp-Returns :
      (n as_of : ℕ) (d : StampDraws) (after : Option String)
      → as_of ≤ last_day
      → n < most_rounds
      → HasClock codec (suc n) after
      → Returns (HasTime n) (event_timestamp codec as_of d after)
  unfolding event_timestamp
  stamp-Returns n as_of d none early few r = omega (arith, drawn_stamp-bound as_of d)
  stamp-Returns n as_of d (some s) early few (t, e, room) =
      Returns-weaken _ (HasTime n) (event_timestamp codec as_of d (some s))
        (event_timestamp-later codec as_of d s t e (omega arith))
        λ stamp later. elim later [
          | inl (_, drawn) ↦ omega (arith, drawn, drawn_stamp-bound as_of d)
          | inr (_, near) ↦ omega (arith, near, room)
        ]

  pub maturity-Returns :
      (m : Option String)
      → Reads codec.date_fromisoformat m
      → Returns (λ _. Unit {0}) (booked_maturity codec m)
  unfolding booked_maturity
  maturity-Returns none r = tt
  maturity-Returns (some s) (t, e) = elim (Bool-cases (s == "")) [
    | inl empty ↦ rw empty tt
    | inr full ↦ rw (full, e) tt
  ]
