-- ===== src/Arbitration.antt =====
-- `_business_time` and `_settle_version_arbitration` of ingestion/src/trade_sim/generator.py. An
-- event is known by its position in the file, since the code changes the event objects in place.
pub mod Groups
pub mod Latest
pub mod Losers
pub mod Ranking
pub mod Positions
pub mod Race
pub mod Staleness
pub mod Winner
pub mod Marks
pub mod Winnings
pub mod Manifest
pub mod Tallies
use snowflake_trade_pipeline.Prelude.{
  ℕ, zero, suc, ◌+◌, ◌*◌, String, Bool, true, false, not, ◌&&◌, List, [], ◌∷◌, ◌++◌, map, Option,
  none, some, ltb, max, if◌then◌else◌, ◌==◌, nat_eq, string_eq, pair_eq, contains, keep, count_if,
  length,
}
use snowflake_trade_pipeline.Prelude.Dict.{Dict, lookup, insert}
use snowflake_trade_pipeline.Prelude.Sorting.{sort_keys}
use snowflake_trade_pipeline.Schema.{GeneratedEvent, Payload, object, verbatim, ExpectedVerdict}
use snowflake_trade_pipeline.Schema.Codecs.{Codec, Value, text}

-- `datetime.min`, at the ordinal 1
abbrev pub before_any_event : ℕ
before_any_event = 24 * 60 * 60 * 1000000

abbrev pub or_empty {ℓ} : {A : Type ℓ} → Option (List A) → List A
or_empty none = []
or_empty (some xs) = xs

-- An event and its position.
abbrev pub Placed : Type 0
Placed = ℕ × GeneratedEvent

abbrev pub Key : Type 0
Key = String × ℕ

unfoldable pub append_to : Dict Key (List Placed) → Key → Placed → Dict Key (List Placed)
append_to d k x = insert d k (or_empty (lookup d k) ++ x ∷ [])

abbrev pub Winners : Type 0
Winners = Dict String (List (ℕ × ℕ))

unfoldable pub add_winner : Winners → String → ℕ × ℕ → Winners
add_winner d k x = insert d k (or_empty (lookup d k) ++ x ∷ [])

unfoldable pub key_of : Option String → Option ℕ → Bool → Option Key
key_of (some k) (some v) true = some (k, v)
key_of _ _ _ = none

-- The key of an event that takes part in a race.
unfoldable pub contender_key : GeneratedEvent → Option Key
contender_key e = key_of e.trade_id e.trade_version e.field_valid

unfoldable pub enumerate : ℕ → List GeneratedEvent → List Placed
enumerate i [] = []
enumerate i (e ∷ es) = (i, e) ∷ enumerate (i + 1) es

unfoldable pub add_contender : Dict Key (List Placed) → Placed → Dict Key (List Placed)
add_contender d x = elim (contender_key x.1) [ none ↦ d | some k ↦ append_to d k x ]

-- The first loop of the function.
unfoldable pub contenders : Dict Key (List Placed) → List Placed → Dict Key (List Placed)
contenders d [] = d
contenders d (x ∷ xs) = contenders (add_contender d x) xs

unfoldable pub supersede : GeneratedEvent → GeneratedEvent
supersede e = record e { expected_verdict = "SUPERSEDED"; expected_rule_codes = "RJ009" ∷ [] }

-- The event at a position is changed in place.
unfoldable pub change_at :
    (GeneratedEvent → GeneratedEvent) → ℕ → List GeneratedEvent → List GeneratedEvent
change_at f i [] = []
change_at f zero (e ∷ es) = f e ∷ es
change_at f (suc i) (e ∷ es) = e ∷ change_at f i es

unfoldable pub supersede_all : List Placed → List GeneratedEvent → List GeneratedEvent
supersede_all [] es = es
supersede_all (x ∷ xs) es = supersede_all xs (change_at supersede x.0 es)

-- `competing[:-1]` and `competing[-1]`
unfoldable pub all_but_last : List Placed → List Placed
all_but_last [] = []
all_but_last (x ∷ []) = []
all_but_last (x ∷ (y ∷ ys)) = x ∷ all_but_last (y ∷ ys)

unfoldable pub last_or : Placed → List Placed → Placed
last_or d [] = d
last_or d (x ∷ xs) = last_or x xs

-- `max([stored] + [version for when, version in winners if when < arrived_at])`
unfoldable pub high_mark : ℕ → ℕ → List (ℕ × ℕ) → ℕ
high_mark stored arrived_at [] = stored
high_mark stored arrived_at ((when, version) ∷ ws) =
    let rest = high_mark stored arrived_at ws in
    if ltb when arrived_at then max version rest else rest

abbrev pub or_zero : Option ℕ → ℕ
or_zero none = 0
or_zero (some v) = v

abbrev pub is_nil : List String → Bool
is_nil [] = true
is_nil (_ ∷ _) = false

unfoldable pub clear_stale : GeneratedEvent → GeneratedEvent
clear_stale e =
    let codes = keep (λ c. not (c == "RJ001")) e.expected_rule_codes in
    record e {
      expected_rule_codes = codes;
      expected_verdict = if e.field_valid && is_nil codes then "ACCEPTED" else e.expected_verdict;
    }

module _ (codec : Codec) where
  unfoldable pub stamp_time : Option Value → ℕ
  stamp_time (some (text s)) = elim (codec.fromisoformat s) [ none ↦ before_any_event | some t ↦ t ]
  stamp_time _ = before_any_event

  unfoldable pub payload_time : Payload → ℕ
  payload_time (object fields) = stamp_time (lookup fields "event_timestamp")
  payload_time (verbatim _) = before_any_event

  unfoldable pub business_time : GeneratedEvent → ℕ
  business_time e = payload_time e.payload

  -- `competing.sort(key=_business_time)`: a stable sort.
  unfoldable pub sort_in : Placed → List Placed → List Placed
  sort_in x [] = x ∷ []
  sort_in x (y ∷ ys) =
      if ltb (business_time y.1) (business_time x.1) then y ∷ sort_in x ys else x ∷ (y ∷ ys)

  unfoldable pub sort : List Placed → List Placed
  sort [] = []
  sort (x ∷ xs) = sort_in x (sort xs)

  -- The second loop: in every race the losers are superseded, and the winner moves the mark.
  unfoldable pub run_race :
      Key → List Placed → List GeneratedEvent × Winners → List GeneratedEvent × Winners
  run_race k [] s = s
  run_race k (x ∷ xs) (es, winners) =
      let ranked = sort (x ∷ xs) in
      (
        supersede_all (all_but_last ranked) es,
        add_winner winners k.0 (business_time (last_or x ranked).1, k.1),
      )

  unfoldable pub run_races :
      Dict Key (List Placed) → List GeneratedEvent × Winners → List GeneratedEvent × Winners
  run_races [] s = s
  run_races ((k, competing) ∷ d) s = run_races d (run_race k competing s)

  -- The mark that an event of the trade is measured against.
  unfoldable pub mark_for : Winners → Dict String ℕ → String → GeneratedEvent → ℕ
  mark_for winners stored trade_id e =
      high_mark (or_zero (lookup stored trade_id)) (business_time e)
        (or_empty (lookup winners trade_id))

  unfoldable pub restale_as :
      Winners → Dict String ℕ → GeneratedEvent → Option String → GeneratedEvent
  restale_as winners stored e none = e
  restale_as winners stored e (some trade_id) =
      if contains e.expected_rule_codes "RJ001"
        && not (ltb (or_zero e.trade_version) (mark_for winners stored trade_id e))
      then clear_stale e
      else e

  -- The third loop, for one event.
  unfoldable pub restale : Winners → Dict String ℕ → GeneratedEvent → GeneratedEvent
  restale winners stored e = restale_as winners stored e e.trade_id

  unfoldable pub settle : List GeneratedEvent → Dict String ℕ → List GeneratedEvent
  settle events stored =
      let (raced, winners) = run_races (contenders [] (enumerate 0 events)) (events, []) in
      map (restale winners stored) raced
