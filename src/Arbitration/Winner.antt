-- ===== src/Arbitration/Winner.antt =====
-- The winner of a race in `_settle_version_arbitration` of ingestion/src/trade_sim/generator.py: the
-- one contender that no other beats.
use snowflake_trade_pipeline.Prelude.{
  ℕ, ◌≡◌, refl, sym, ap, ◌∙◌, true, false, List, [], ◌∷◌, arith, nat_eq, All,
}
use snowflake_trade_pipeline.Schema.{GeneratedEvent}
use snowflake_trade_pipeline.Schema.Codecs.{Codec}
use snowflake_trade_pipeline.Arbitration.{Placed, sort, all_but_last, last_or}
use snowflake_trade_pipeline.Arbitration.Positions.{
  IsIncreasing, IsAt, IsNodup, at_index, at_index-last, All-last,
}
use snowflake_trade_pipeline.Arbitration.Latest.{all_but_last-at, race_lem, same_place}
use snowflake_trade_pipeline.Arbitration.Ranking.{at_index-sort, All-sort, sort-IsNodup, is_beaten}

-- `w` is in the race, and it is the only contender that no other beats.
pub record IsWinner (codec : Codec) (events : List GeneratedEvent) (xs : List Placed) (w : Placed)
    : Type 0 where
  pub placed : IsAt events w
  pub racing : at_index xs w.0 ≡ true
  pub unbeaten : is_beaten codec w xs ≡ false
  pub only :
      (y : Placed) → IsAt events y → at_index xs y.0 ≡ true → is_beaten codec y xs ≡ false → y ≡ w

module _ (codec : Codec) (events : List GeneratedEvent) (n : ℕ) (xs : List Placed) where
  last-IsWinner :
      (x : Placed) (s : List Placed)
      → IsIncreasing n xs
      → All (IsAt events) xs
      → at_index xs x.0 ≡ true
      → s ≡ sort codec xs
      → IsNodup s
      → All (IsAt events) s
      → IsWinner codec events xs (last_or x s)
  last-IsWinner x [] i ps a e nodup placed =
      absurd (
        unfold at_index in
        ground (arith, a, at_index-sort codec xs x.0, ap (λ l. at_index l x.0) e))
  last-IsWinner x (t ∷ ts) i ps a e nodup placed =
      let w = last_or t ts in
      let at_w : IsAt events w = All-last (IsAt events) t ts placed in
      let inside : at_index xs w.0 ≡ true =
        sym (at_index-sort codec xs w.0) ∙ sym (ap (λ l. at_index l w.0) e) ∙ at_index-last t ts in
      unfold last_or in
      record {
        placed = at_w;
        racing = inside;
        unbeaten =
            sym (race_lem codec events n xs w i ps at_w inside)
            ∙ sym (ap (λ l. at_index (all_but_last l) w.0) e)
            ∙ ground (arith, all_but_last-at codec t ts w.0 nodup);
        only = λ y at_y in_y free.
            let kept : at_index (all_but_last (t ∷ ts)) y.0 ≡ false =
              ap (λ l. at_index (all_but_last l) y.0) e
              ∙ race_lem codec events n xs y i ps at_y in_y
              ∙ free in
            let in_s : at_index (t ∷ ts) y.0 ≡ true =
              ap (λ l. at_index l y.0) e ∙ at_index-sort codec xs y.0 ∙ in_y in
            same_place codec events y w at_y at_w
              (ground (arith, kept, in_s, all_but_last-at codec t ts y.0 nodup));
      }

  pub last_or-IsWinner :
      (x : Placed)
      → IsIncreasing n xs
      → All (IsAt events) xs
      → at_index xs x.0 ≡ true
      → IsWinner codec events xs (last_or x (sort codec xs))
  last_or-IsWinner x i ps a =
      last-IsWinner x (sort codec xs) i ps a refl (sort-IsNodup codec n xs i)
        (All-sort codec (IsAt events) xs ps)
