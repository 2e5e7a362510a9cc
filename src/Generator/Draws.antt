-- ===== src/Generator/Draws.antt =====
-- What `random.Random` hands the generator. Every call of `random`, `randint`, `uniform` or
-- `choice` for one event is a number of `Draws`, reduced here to the range that the call is given;
-- a theorem for all draws holds for every seed. `random()` is a number of millionths.
use snowflake_trade_pipeline.Prelude.{
  ℕ, ◌+◌, ◌-◌, ◌%◌, ◌≤◌, ◌<◌, List, Bool, arith, ltb, length, get_elem?, get_elem?-some, All,
  All-get,
}
use snowflake_trade_pipeline.Result.{Result, index_error, or_raise, Returns}

-- The rates of `SimulatorSettings`, in millionths.
pub record Settings : Type 0 where
  pub error_rate : ℕ
  pub amend_rate : ℕ
  pub cancel_rate : ℕ
  pub replace_rate : ℕ
  pub stale_version_rate : ℕ
  pub near_maturity_rate : ℕ

pub record FieldDraws : Type 0 where
  pub product : ℕ
  pub book : ℕ
  pub currency : ℕ
  pub near : ℕ
  pub tenor : ℕ
  -- the value of `_log_uniform`, which samples in floating point
  pub notional : ℕ
  pub direction : ℕ
  pub price : ℕ
  pub counterparty : ℕ
  pub trader : ℕ
  pub venue : ℕ
  pub house : ℕ
  pub source : ℕ

pub record StampDraws : Type 0 where
  pub hour : ℕ
  pub minute : ℕ
  pub second : ℕ
  pub millisecond : ℕ
  pub gap_seconds : ℕ
  pub gap_milliseconds : ℕ

pub record FaultDraws : Type 0 where
  pub fault : ℕ
  pub pick : ℕ
  pub amount : ℕ

pub record Draws : Type 0 where
  pub roll : ℕ
  pub pick : ℕ
  pub cancel : ℕ
  pub stale_gap : ℕ
  pub adjustment : ℕ
  pub uti : ℕ
  pub error : ℕ
  pub fields : FieldDraws
  pub stamp : StampDraws
  pub fault : FaultDraws

-- `rng.randint(low, high)`
unfoldable pub randint : ℕ → ℕ → ℕ → ℕ
randint low high draw = low + draw % (high - low + 1)

pub randint_bounds :
    (low high draw : ℕ)
    → low ≤ high
    → (low ≤ randint low high draw) × (randint low high draw ≤ high)
unfolding randint
randint_bounds low high draw h = grind arith

-- `rng.random() < rate`
unfoldable pub happens : ℕ → ℕ → Bool
happens rate draw = ltb (draw % 1000000) rate

-- `rng.choice(xs)`
unfoldable pub choice {ℓ} : {A : Type ℓ} → List A → ℕ → Result A
choice xs draw = or_raise index_error (get_elem? xs (draw % length xs))

module _ {A : Type 0} where
  pub choice-Returns :
      (P : A → Type 0) (xs : List A) (draw : ℕ)
      → All P xs
      → 0 < length xs
      → Returns P (choice xs draw)
  unfolding choice
  choice-Returns P xs draw all full =
      let (x, e) = get_elem?-some xs (draw % length xs) (grind arith) in
      rw e (All-get P xs (draw % length xs) all e)
