-- ===== src/Generator/Clock.antt =====
-- Dates and business times of ingestion/src/trade_sim/generator.py: what `_business_days_from` and
-- `_event_timestamp` promise.
use snowflake_trade_pipeline.Prelude.{
  ℕ, zero, suc, ◌+◌, ◌-◌, ◌*◌, ◌≤◌, ◌<◌, String, ◌≡◌, refl, inl, inr, ◌⊎◌, true, false, some, arith,
  ltb, if◌then◌else◌, Bool-cases, lt→ltb, ltb→lt,
}
use snowflake_trade_pipeline.Result.{Result, ok, err, overflow_error, Returns}
use snowflake_trade_pipeline.Schema.Codecs.{Codec}
use snowflake_trade_pipeline.Generator.Draws.{StampDraws, randint, randint_bounds}
use snowflake_trade_pipeline.Generator.Fields.{
  is_business_day, advance, business_days_from, step_after, event_timestamp, drawn_stamp,
  last_ordinal, moments,
}

-- How many of the `n` days behind `start` are business days.
unfoldable pub business_days_within : ℕ → ℕ → ℕ
business_days_within start zero = 0
business_days_within start (suc n) =
    (if is_business_day (start + 1) then 1 else 0) + business_days_within (start + 1) n

-- The rounds until the next business day.
need : ℕ → ℕ
need day = if is_business_day (day + 1) then 1 else if is_business_day (day + 2) then 2 else 3

need_step : (day : ℕ) → is_business_day (day + 1) ≡ false → need (day + 1) + 1 ≤ need day
unfolding need is_business_day
need_step day h = ground arith

need_bounds : (day : ℕ) → (1 ≤ need day) × (need day ≤ 3)
unfolding need
need_bounds day = ground arith

-- `days` business days behind `start` the walk stands on one, and goes no further.
pub record IsAdvanced (start days result : ℕ) : Type 0 where
  pub walked : ℕ
  pub reached : result ≡ start + walked
  pub counted : business_days_within start walked ≡ days
  pub stops : days ≡ 0 → walked ≡ 0
  pub on_business_day : 0 < days → is_business_day result ≡ true

IsAdvanced-skip :
    (start days result : ℕ)
    → is_business_day (start + 1) ≡ false
    → IsAdvanced (start + 1) days result
    → 0 < days
    → IsAdvanced start days result
unfolding business_days_within
IsAdvanced-skip start days result off a h = record {
  walked = suc a.walked;
  reached = omega (arith, a.reached);
  counted = rw off (omega (arith, a.counted));
  stops = λ e. absurd (omega arith);
  on_business_day = a.on_business_day;
}

IsAdvanced-count :
    (start days result : ℕ)
    → is_business_day (start + 1) ≡ true
    → IsAdvanced (start + 1) (days - 1) result
    → 0 < days
    → IsAdvanced start days result
unfolding business_days_within
IsAdvanced-count start days result on a h = record {
  walked = suc a.walked;
  reached = omega (arith, a.reached);
  counted = rw on (omega (arith, a.counted));
  stops = λ e. absurd (omega arith);
  on_business_day = λ _. elim (Bool-cases (ltb 0 (days - 1))) [
    | inl more ↦ a.on_business_day (ltb→lt _ _ more)
    | inr last ↦
        let none_left : days - 1 ≡ 0 = ground arith in
        let here : result ≡ start + 1 = omega (arith, a.reached, a.stops none_left) in rw here on
  ];
}

-- The walk on a calendar without an end.
walk : ℕ → ℕ → ℕ → ℕ
walk zero current remaining = current
walk (suc fuel) current remaining =
    let rest =
      walk fuel (current + 1)
        (if is_business_day (current + 1) then remaining - 1 else remaining) in
    if ltb 0 remaining then rest else current

walk-bounds :
    (fuel current remaining : ℕ)
    → (current ≤ walk fuel current remaining) × (walk fuel current remaining ≤ current + fuel)
unfolding walk
walk-bounds zero current remaining = omega arith
walk-bounds (suc fuel) current remaining = ground (
  arith,
  walk-bounds fuel (current + 1)
      (if is_business_day (current + 1) then remaining - 1 else remaining),
)

-- A day that the calendar has, and the error behind its last.
unfoldable pub dated : ℕ → Result ℕ
dated day = if ltb last_ordinal day then err overflow_error else ok day

advance-walk :
    (fuel current remaining : ℕ)
    → current ≤ last_ordinal
    → advance fuel current remaining ≡ dated (walk fuel current remaining)
unfolding advance walk dated
advance-walk zero current remaining h = ground arith
advance-walk (suc fuel) current remaining h =
    let left = if is_business_day (current + 1) then remaining - 1 else remaining in
    elim (Bool-cases (ltb 0 remaining)) [
      | inr done ↦ rw done (ground arith)
      | inl more ↦ elim (Bool-cases (ltb current last_ordinal)) [
        | inl within ↦ rw (more, within) (advance-walk fuel (current + 1) left (ground arith))
        | inr last ↦ rw (more, last) (ground (arith, walk-bounds fuel (current + 1) left))
      ]
    ]

walk-IsAdvanced :
    (fuel current remaining : ℕ)
    → (0 < remaining → 3 * (remaining - 1) + need current ≤ fuel)
    → IsAdvanced current remaining (walk fuel current remaining)
unfolding walk business_days_within
walk-IsAdvanced zero current zero h = record {
  walked = 0;
  reached = omega arith;
  counted = refl;
  stops = λ _. refl;
  on_business_day = λ p. absurd (omega arith);
}
walk-IsAdvanced zero current (suc remaining) h =
    absurd (omega (arith, h (omega arith), need_bounds current))
walk-IsAdvanced (suc fuel) current zero h = record {
  walked = 0;
  reached = omega arith;
  counted = refl;
  stops = λ _. refl;
  on_business_day = λ p. absurd (omega arith);
}
walk-IsAdvanced (suc fuel) current (suc remaining) h =
    elim (Bool-cases (is_business_day (current + 1))) [
      | inl on ↦
          rw (on, lt→ltb 0 (suc remaining) (omega arith))
            (IsAdvanced-count current (suc remaining) _ on
              (walk-IsAdvanced fuel (current + 1) (suc remaining - 1)
                λ p. omega (arith, h (omega arith), need_bounds current, need_bounds (current + 1)))
              (omega arith))
      | inr off ↦
          rw (off, lt→ltb 0 (suc remaining) (omega arith))
            (IsAdvanced-skip current (suc remaining) _ off
              (walk-IsAdvanced fuel (current + 1) (suc remaining)
                λ p. omega (arith, h p, need_step current off))
              (omega arith))
    ]

-- From a date of the calendar the walk over `days` business days ends, on the day that many
-- business days later: exactly `days` of the days passed are business days, and for `days` above
-- zero the last of them is one. It raises an `OverflowError` exactly if this day is behind the last
-- of the calendar.
pub business_days_from-IsAdvanced :
    (start days : ℕ)
    → start ≤ last_ordinal
    → (result : ℕ) × IsAdvanced start days result × (business_days_from start days ≡ dated result)
unfolding business_days_from
business_days_from-IsAdvanced start days h = (
  walk (3 * days) start days,
  walk-IsAdvanced (3 * days) start days (λ p. omega (arith, need_bounds start)),
  advance-walk (3 * days) start days h,
)

-- Three days for each business day are room enough.
pub business_days_from-Returns :
    (start days : ℕ)
    → start + 3 * days ≤ last_ordinal
    → Returns (λ _. Unit {0}) (business_days_from start days)
unfolding business_days_from dated
business_days_from-Returns start days h =
    rw (advance-walk (3 * days) start days (omega arith))
      (ground (arith, walk-bounds (3 * days) start days))

-- The longest step is 900 seconds and 999 milliseconds.
abbrev pub longest_gap : ℕ
longest_gap = 900999000

-- Where the business time before can be read and the longest step from it stays below the end of the
-- calendar, the business time drawn to follow it is returned, is later, and is the draw of the day
-- or no more than the longest step later, whatever the draws.
pub event_timestamp-later :
    (codec : Codec) (as_of : ℕ) (d : StampDraws) (after : String) (previous : ℕ)
    → codec.fromisoformat after ≡ some previous
    → previous + longest_gap < moments
    → Returns
        (λ stamp.
          (previous < stamp) × (stamp ≡ drawn_stamp as_of d)
          ⊎ (previous < stamp) × (stamp ≤ previous + longest_gap))
        (event_timestamp codec as_of d (some after))
unfolding event_timestamp step_after
event_timestamp-later codec as_of d after previous read room =
    let seconds = randint_bounds 1 900 d.gap_seconds (omega arith) in
    let millis = randint_bounds 0 999 d.gap_milliseconds (omega arith) in
    elim (Bool-cases (ltb previous (drawn_stamp as_of d))) [
      | inl drawn ↦ rw (read, drawn) (inl (ground arith, refl))
      | inr earlier ↦
          let gap =
            randint 1 900 d.gap_seconds * 1000000 + randint 0 999 d.gap_milliseconds * 1000 in
          rw
            (
              read,
              earlier,
              lt→ltb
                  (previous
                    + randint 1 900 d.gap_seconds * 1000000
                    + randint 0 999 d.gap_milliseconds * 1000)
                  moments (omega (arith, seconds, millis)),
            )
            (inr (omega (arith, seconds, millis), omega (arith, seconds, millis)))
    ]

-- The draw of a day lies on it.
pub drawn_stamp-bound :
    (as_of : ℕ) (d : StampDraws) → drawn_stamp as_of d < (as_of + 1) * 86400000000
unfolding drawn_stamp
drawn_stamp-bound as_of d = omega (
  arith,
  randint_bounds 6 21 d.hour (omega arith),
  randint_bounds 0 59 d.minute (omega arith),
  randint_bounds 0 59 d.second (omega arith),
  randint_bounds 0 999 d.millisecond (omega arith),
)
