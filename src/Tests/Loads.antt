-- ===== src/Tests/Loads.antt =====
-- A load over a connection that is refused twice: the theorems on Session and Loader at it.
use snowflake_trade_pipeline.Prelude.{
  ℕ, ◌+◌, ◌≡◌, refl, String, true, false, some, List, [], ◌∷◌, ltb, if◌then◌else◌, arith,
}
use snowflake_trade_pipeline.Result.{value_error, Result, ok, err, Yields}
use snowflake_trade_pipeline.Session.{
  Value, number, text, object, Members, no_members, member, Call, dials, sleeps, sends, opened,
  refused, fetched, not_supported, Answer, answered, Driver, Session, new_session, connect,
  open_connection,
}
use snowflake_trade_pipeline.Session.Retries.{connect-opened}
use snowflake_trade_pipeline.Session.Bounds.{AreBounded, connect-AreBounded}
use snowflake_trade_pipeline.Session.Sending.{HasSent}
use snowflake_trade_pipeline.Loader.{LocalFile, load_file}
use snowflake_trade_pipeline.Loader.Order.{script, load_file-Sends}
use snowflake_trade_pipeline.Gates.Ingest.{Detected, local, load_files}
use snowflake_trade_pipeline.Gates.Ingest.Sending.{
  session_over, load_script, AreFiles, load_files-Sends,
}

abbrev number_of_dials : List Call → ℕ
number_of_dials [] = 0
number_of_dials (dials ∷ calls) = number_of_dials calls + 1
number_of_dials (_ ∷ calls) = number_of_dials calls

abbrev loaded : Members
loaded = member "batch_id" (text "B-1") (member "files_loaded" (number 1) no_members)

-- Each statement is answered with one row that holds one value.
abbrev replies : List Call → Answer
replies (sends (sql, []) ∷ calls) =
    answered "q-put" (fetched ((("status", text "UPLOADED") ∷ []) ∷ [])) []
replies (sends (sql, _ ∷ []) ∷ calls) =
    answered "q-drain" (fetched ((("RESULT", number 3) ∷ []) ∷ [])) []
replies (sends (sql, _ ∷ _ ∷ _) ∷ calls) =
    answered "q-copy" (fetched ((("RESULT", object loaded) ∷ []) ∷ [])) []
replies _ = answered "q" not_supported []

abbrev flaky : Driver
flaky = record {
  dial = λ calls. if ltb (number_of_dials calls) 2 then refused else opened 7;
  is_closed = λ calls c. false;
  answer = replies;
}

abbrev no_json : String → Result Value
no_json s = err value_error

abbrev file : LocalFile
file = record { name = "trades_1.json.gz"; resolved = "/data/landing/trades_1.json.gz" }

abbrev connected : Session
connected = record new_session {
  connection = some 7;
  calls = dials ∷ sleeps 4 ∷ dials ∷ sleeps 2 ∷ dials ∷ [];
}

connect-opened_example : connect flaky 3 new_session ≡ (ok 7, connected)
unfolding open_connection
connect-opened_example =
    connect-opened flaky 3 2 new_session 7 refl (omega arith) (refl, (refl, tt)) refl

connect-AreBounded_example : AreBounded flaky 3 new_session (connect flaky 3 new_session).1
connect-AreBounded_example = connect-AreBounded flaky 3 new_session

load_file-Sends_example :
    HasSent
      (script "RAW.TRADE_LANDING" file "2026-01-05" "run-1" true)
      new_session
      (load_file no_json flaky 3 "RAW.TRADE_LANDING" file "2026-01-05" "run-1" true new_session)
load_file-Sends_example =
    load_file-Sends no_json flaky 3 "RAW.TRADE_LANDING" file "2026-01-05" "run-1" true new_session

abbrev arrivals : Detected
arrivals = local (
    record {
      name = "trades_1.json.gz";
      parent_name = "2026-01-05";
      resolved = "/data/landing/2026-01-05/trades_1.json.gz";
    }
    ∷ record {
      name = "trades_2.json.gz";
      parent_name = "2026-01-05";
      resolved = "/data/landing/2026-01-05/trades_2.json.gz";
    }
    ∷ [])

load_files-Sends_example :
    HasSent (load_script "RAW.TRADE_LANDING" "run-1" arrivals) (session_over []) (
      (load_files flaky 3 no_json "RAW.TRADE_LANDING"
          (λ s. err value_error)
          (λ p. true)
          "run-1"
          arrivals
          []).0,
      session_over
          (load_files flaky 3 no_json "RAW.TRADE_LANDING"
            (λ s. err value_error)
            (λ p. true)
            "run-1"
            arrivals
            []).1,
    )
    × Yields
        (λ _. AreFiles (λ p. true) arrivals)
        (load_files flaky 3 no_json "RAW.TRADE_LANDING"
          (λ s. err value_error)
          (λ p. true)
          "run-1"
          arrivals
          []).0
load_files-Sends_example =
    load_files-Sends flaky 3 no_json "RAW.TRADE_LANDING" (λ p. true) "run-1" (λ s. err value_error)
      arrivals []
