-- ===== src/Arbitration/Marks.antt =====
-- The marks of a settled batch in `_settle_version_arbitration` of
-- ingestion/src/trade_sim/generator.py, in terms of the batch's own events.
use snowflake_trade_pipeline.Prelude.{
  ℕ, ◌≤◌, ◌<◌, String, ◌≡◌, refl, sym, ap, ◌∙◌, ◌⊎◌, inl, inr, true, false, ◌&&◌, List, [], ◌∷◌,
  Option, none, some, arith, ==_sound, ==_refl, nat_eq, string_eq, pair_eq, All,
}
use mathlib.Core.Path.{subst}
use snowflake_trade_pipeline.Prelude.Dict.{Dict, lookup}
use snowflake_trade_pipeline.Schema.{GeneratedEvent}
use snowflake_trade_pipeline.Schema.Codecs.{Codec}
use snowflake_trade_pipeline.Arbitration.{
  Placed, Key, or_empty, or_zero, contender_key, enumerate, business_time, mark_for, high_mark,
}
use snowflake_trade_pipeline.Arbitration.Positions.{IsAt, IsIncreasing, at_index}
use snowflake_trade_pipeline.Arbitration.Ranking.{is_beaten}
use snowflake_trade_pipeline.Arbitration.Groups.{
  is_key, racing, racing-IsIncreasing, All-racing, enumerate-IsIncreasing, enumerate-IsAt,
  at_index-enumerate, at_index-racing, members-contenders,
}
use snowflake_trade_pipeline.Arbitration.Race.{
  groups, groups-keyed, winners_of, is_superseded, loses_race,
}
use snowflake_trade_pipeline.Arbitration.Staleness.{IsMark, high_mark-IsMark}
use snowflake_trade_pipeline.Arbitration.Winner.{IsWinner, last_or-IsWinner}
use snowflake_trade_pipeline.Arbitration.Winnings.{
  won-All, winner, time_of, won, won-run_races, won-IsWonBy,
}

module _ (codec : Codec) where
  module _ (events : List GeneratedEvent) where
    abbrev batch : List Placed
    batch = enumerate 0 events

    -- An event that takes part in the race for version `v` of the trade and is not superseded, with
    -- a business time before the arrival.
    pub record IsSettledBefore (t : String) (v arrived_at : ℕ) (y : Placed) : Type 0 where
      pub placed : IsAt events y
      pub contends : contender_key y.1 ≡ some (t, v)
      pub stands : is_superseded codec events y ≡ false
      pub earlier : time_of codec y < arrived_at

    key-of : (k : Key) (o : Option Key) → is_key k o ≡ true → o ≡ some k
    key-of k none h = absurd (ground (arith, h))
    key-of k (some j) h = ap (λ i. some i) (==_sound j k h)

    in_batch : (y : Placed) → IsAt events y → at_index batch y.0 ≡ true
    in_batch y p =
        subst (λ n. at_index batch n ≡ true) (omega arith) (at_index-enumerate 0 y.0 events p)

    race-IsWinner :
        (k : Key) (x : Placed) (xs : List Placed)
        → x ∷ xs ≡ racing k batch
        → IsWinner codec events (x ∷ xs) (winner codec x xs)
    race-IsWinner k x xs e =
        last_or-IsWinner codec events 0 (x ∷ xs) x
          (subst (λ l. IsIncreasing 0 l) (sym e)
            (racing-IsIncreasing k 0 batch (enumerate-IsIncreasing 0 events)))
          (subst (λ l. All (IsAt events) l) (sym e)
            (All-racing (IsAt events) k batch (enumerate-IsAt [] events)))
          (unfold at_index in ground arith)

    winner-IsSettledBefore :
        (t : String) (m arrived_at : ℕ) (x : Placed) (xs : List Placed)
        → x ∷ xs ≡ racing (t, m) batch
        → time_of codec (winner codec x xs) < arrived_at
        → IsSettledBefore t m arrived_at (winner codec x xs)
    winner-IsSettledBefore t m a x xs e early =
        let w = race-IsWinner (t, m) x xs e in
        let index : (at_index batch (winner codec x xs).0
              && is_key (t, m) (contender_key (winner codec x xs).1))
            ≡ true =
          sym (
            at_index-racing events (t, m) (winner codec x xs) batch w.placed
              (enumerate-IsAt [] events))
          ∙ sym (ap (λ l. at_index l (winner codec x xs).0) e)
          ∙ w.racing in
        let key = key-of (t, m) (contender_key (winner codec x xs).1) (ground (arith, index)) in
        record {
          placed = w.placed;
          contends = key;
          stands =
              unfold is_superseded in
              ap (λ o. loses_race codec events (winner codec x xs) o) key
              ∙ sym (ap (λ l. is_beaten codec (winner codec x xs) l) e)
              ∙ w.unbeaten;
          earlier = early;
        }

    standing-is-winner :
        (t : String) (v arrived_at : ℕ) (y x : Placed) (xs : List Placed)
        → x ∷ xs ≡ racing (t, v) batch
        → at_index (racing (t, v) batch) y.0 ≡ true
        → IsSettledBefore t v arrived_at y
        → y ≡ winner codec x xs
    standing-is-winner t v a y x xs e inside s =
        let w = race-IsWinner (t, v) x xs e in
        let free : is_beaten codec y (racing (t, v) batch) ≡ false =
          unfold is_superseded in
          sym (ap (λ o. loses_race codec events y o) s.contends) ∙ s.stands in
        w.only y s.placed (ap (λ l. at_index l y.0) e ∙ inside)
          (ap (λ l. is_beaten codec y l) e ∙ free)

    race-inside :
        (t : String) (v arrived_at : ℕ) (y : Placed)
        → IsSettledBefore t v arrived_at y
        → at_index (racing (t, v) batch) y.0 ≡ true
    race-inside t v a y s =
        at_index-racing events (t, v) y batch s.placed (enumerate-IsAt [] events)
        ∙ rw (in_batch y s.placed, s.contends) (==_refl {A = Key} (t, v))

    bounded :
        (t : String) (v arrived_at m : ℕ) (y : Placed) (o : Option (List Placed))
        → lookup (groups codec events) (t, v) ≡ o
        → or_empty o ≡ racing (t, v) batch
        → IsSettledBefore t v arrived_at y
        → All (λ w. w.0 < arrived_at → w.1 ≤ m) (won codec t (groups codec events))
        → v ≤ m
    bounded t v a m y none found e s all =
        absurd
          (unfold at_index in ground (arith, ap (λ l. at_index l y.0) e, race-inside t v a y s))
    bounded t v a m y (some []) found e s all =
        absurd
          (unfold at_index in ground (arith, ap (λ l. at_index l y.0) e, race-inside t v a y s))
    bounded t v a m y (some (x ∷ xs)) found e s all =
        let same = standing-is-winner t v a y x xs e (race-inside t v a y s) s in
        won-All codec (λ w. w.0 < a → w.1 ≤ m) t v (groups codec events) x xs found all
          (subst (λ z. time_of codec z < a) same s.earlier)

    -- The mark that an arrival of the trade is measured against, in terms of the batch.
    pub record IsSettledMark (stored : ℕ) (t : String) (arrived_at m : ℕ) : Type 0 where
      pub above_stored : stored ≤ m
      pub above_winners : (y : Placed) (v : ℕ) → IsSettledBefore t v arrived_at y → v ≤ m
      pub attained : (m ≡ stored) ⊎ ((y : Placed) × IsSettledBefore t m arrived_at y)

    won-winners_of :
        (t : String)
        → or_empty (lookup (winners_of codec events) t) ≡ won codec t (groups codec events)
    unfolding winners_of lookup
    won-winners_of t = won-run_races codec t (groups codec events) events []

    -- The mark of an arrival is at least the version stored for its trade and at least every version
    -- of the trade that an event of the batch carries which takes part in its race, is not
    -- superseded and is earlier in business time; and it is the stored version or one of these.
    pub mark_for-IsSettledMark :
        (stored : Dict String ℕ) (t : String) (e : GeneratedEvent)
        → IsSettledMark
            (or_zero (lookup stored t))
            t
            (business_time codec e)
            (mark_for codec (winners_of codec events) stored t e)
    unfolding mark_for lookup
    mark_for-IsSettledMark stored t e =
        let a = business_time codec e in
        let base = or_zero (lookup stored t) in
        let mark = high_mark base a (or_empty (lookup (winners_of codec events) t)) in
        let raw : IsMark base a (won codec t (groups codec events)) mark =
          subst (λ l. IsMark base a l mark) (won-winners_of t)
            (high_mark-IsMark base a (or_empty (lookup (winners_of codec events) t))) in
        record {
          above_stored = raw.above_stored;
          above_winners = λ y v s.
              bounded t v a mark y (lookup (groups codec events) (t, v)) refl
                (members-contenders [] batch (t, v)) s raw.above_winners;
          attained = elim raw.attained [
            | inl same ↦ inl same
            | inr earlier ↦
                let found =
                  won-IsWonBy codec (λ p. p.1 ≡ racing p.0 batch) t a mark (groups codec events)
                    (groups-keyed codec events) earlier in
                inr (
                  winner codec found.first found.others,
                  winner-IsSettledBefore t mark a found.first found.others found.grouped
                      found.earlier,
                )
          ];
        }
