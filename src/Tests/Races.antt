-- ===== src/Tests/Races.antt =====
-- A race of three arrivals, and the mark that a later arrival meets.
use snowflake_trade_pipeline.Prelude.{
  String, ◌≡◌, refl, not, ◌&&◌, [], ◌∷◌, some, get_elem?, if◌then◌else◌, contains, ◌==◌, string_eq,
  keep, map,
}
use snowflake_trade_pipeline.Schema.{GeneratedEvent}
use snowflake_trade_pipeline.Schema.Codecs.{tallies}
use snowflake_trade_pipeline.Arbitration.{
  settle, supersede, restale, high_mark, enumerate, contenders, add_contender, contender_key,
  key_of, append_to, run_races, run_race, supersede_all, all_but_last, sort, sort_in, business_time,
  payload_time, stamp_time, add_winner, change_at, clear_stale, last_or, mark_for, restale_as,
}
use snowflake_trade_pipeline.Prelude.Dict.{lookup, insert}
use snowflake_trade_pipeline.Arbitration.Race.{settle-at, is_superseded, winners_of}
use snowflake_trade_pipeline.Arbitration.Marks.{IsSettledMark, mark_for-IsSettledMark}
use snowflake_trade_pipeline.Arbitration.Staleness.{is_in_order, restale-codes}
use snowflake_trade_pipeline.Tests.Samples.{arrival, arrivals}

settle-at_example :
    get_elem? (settle tallies arrivals []) 0
    ≡ some (
        if is_superseded tallies arrivals (0, arrival "xxx")
        then supersede (arrival "xxx")
        else restale tallies (winners_of tallies arrivals) [] (arrival "xxx"))
settle-at_example = settle-at tallies arrivals [] 0 (arrival "xxx") refl

-- On a tie the later place in the file wins.
arrivals_settled :
    map (λ e. e.expected_verdict) (settle tallies arrivals [])
    ≡ "SUPERSEDED" ∷ "SUPERSEDED" ∷ "ACCEPTED" ∷ []
unfolding settle enumerate contenders add_contender contender_key key_of append_to run_races
    run_race lookup insert supersede_all all_but_last sort sort_in business_time payload_time
    stamp_time add_winner change_at clear_stale high_mark last_or mark_for restale restale_as
    supersede contains keep
arrivals_settled = refl

-- The last of the three wins and moves the mark of a fourth.
mark_for-IsSettledMark_example :
    IsSettledMark tallies arrivals 0 "TRD-000000001" 4
      (mark_for tallies (winners_of tallies arrivals) [] "TRD-000000001" (arrival "xxxx"))
unfolding lookup business_time payload_time stamp_time
mark_for-IsSettledMark_example =
    mark_for-IsSettledMark tallies arrivals [] "TRD-000000001" (arrival "xxxx")

abbrev late : GeneratedEvent
late = record (arrival "xxx") { expected_rule_codes = "RJ001" ∷ "RJ004" ∷ [] }

restale-codes_example : contains (restale tallies [] [] late).expected_rule_codes "RJ004" ≡ (
    contains late.expected_rule_codes "RJ004"
    && not ((◌==◌ {A = String} "RJ004" "RJ001") && is_in_order tallies [] [] late late.trade_id))
restale-codes_example = restale-codes tallies [] [] late "RJ004"
