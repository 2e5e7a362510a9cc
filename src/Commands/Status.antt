-- ===== src/Commands/Status.antt =====
-- `status` and `drain` of ingestion/src/trade_sim/cli.py: what they say of the warehouse's answer.
use snowflake_trade_pipeline.Prelude.{
  ℕ, zero, String, Bool, true, false, Option, none, some, List, [], ◌∷◌, map, if◌then◌else◌, ◌==◌,
  string_eq,
}
use snowflake_trade_pipeline.Result.{Result, ok, ◌>>=◌}
use snowflake_trade_pipeline.Deploy.Texts.{append}
use snowflake_trade_pipeline.Settings.Casing.{lower}
use snowflake_trade_pipeline.Session.{
  Value, null, number, text, object, Members, no_members, Call, ResultRow, Driver, execute,
}
use snowflake_trade_pipeline.Loader.{drain_stream, as_object}
use snowflake_trade_pipeline.Gates.Ingest.{with_session}
use snowflake_trade_pipeline.Commands.Operations.{get_member}

unfoldable pub coloured : String → String
coloured display =
    if display == "RED"
    then "[red]RED[/]"
    else if display == "AMBER"
    then "[yellow]AMBER[/]"
    else if display == "GREEN"
    then "[green]GREEN[/]"
    else display

-- The exit code, and the rows of the table.
unfoldable pub status_table : (Value → String) → List ResultRow → ℕ × List (String × String)
unfolding coloured lower
status_table shown [] = (1, [])
status_table shown (row ∷ rows) = (0, map (λ p. (lower p.0, coloured (shown p.1))) row)

-- `bool(value)`, of a member that may be missing
unfoldable pub is_truthy : Option Value → Bool
is_truthy none = false
is_truthy (some null) = false
is_truthy (some (number n)) = elim n as (λ _. Bool) [ zero ↦ false | _ ↦ true ]
is_truthy (some (text s)) = if s == "" then false else true
is_truthy (some (object no_members)) = false
is_truthy (some (object _)) = true

-- What is printed: that the stream was empty, or the rows and the batch.
pub data DrainReport : Type 0 where
  was_empty : DrainReport
  drained_rows : Option Value → Option Value → DrainReport

unfoldable pub drain_report : Members → DrainReport
unfolding is_truthy get_member
drain_report result =
    if is_truthy (get_member result "skipped")
    then was_empty
    else drained_rows (get_member result "rows_drained") (get_member result "batch_id")

module _ (driver : Driver) (max_retries : ℕ) where
  unfoldable pub status :
      (Value → String) → String → List Call → Result (ℕ × List (String × String)) × List Call
  unfolding with_session execute status_table
  status shown database calls =
      let out =
        with_session driver max_retries
          (execute driver max_retries
            (append "select * from " (append database ".monitoring.vw_pipeline_sla")) [])
          calls in
      (out.0 >>= (λ rows. ok (status_table shown rows)), out.1)

  unfoldable pub drain :
      (String → Result Value) → String → String → List Call → Result DrainReport × List Call
  unfolding with_session drain_stream as_object drain_report
  drain loads stage run_id calls =
      let out =
        with_session driver max_retries (drain_stream loads driver max_retries stage run_id)
          calls in
      (out.0 >>= as_object >>= (λ result. ok (drain_report result)), out.1)
