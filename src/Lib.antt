-- ===== src/Lib.antt =====
-- Verification of the Python code of the trade pipeline.
--
-- The program simulates a bank's trade feed, loads it into a warehouse whose SQL decides on every
-- event, and compares those decisions with the ones that the simulator knows to be right. The
-- simulator keeps a trade book, builds events from it, corrupts some, settles what a batch must
-- come to, and writes a manifest; the reconciler reads the manifest and the rows that the
-- warehouse reached.
--
--   Reference    ingestion/src/trade_sim/reference.py: the reference tables and their lookups
--   Schema       ingestion/src/trade_sim/schema.py: the trade event, its JSON form, the manifest's
--                rows; Schema.Codecs takes the standard library's codecs as a record of functions
--                with the round trips that their documentation states
--   Result       exceptions as values
--   Book         TradeBookEntry and TradeBook of ingestion/src/trade_sim/generator.py; Sharing is the
--                book in its file, under its lock
--   Generator    TradeGenerator of the same file: Draws is the random source, Fields the
--                primitives, Build the construction of events, Faults the injection, and Run the
--                loop of `generate`; the other modules below it are proofs
--   Arbitration  _settle_version_arbitration of the same file, and in Manifest build_manifest
--   Reconcile    ingestion/src/trade_sim/reconcile.py
--   Deploy       split_statements of scripts/deploy_snowflake_sql.py, a scanner that takes one or two
--                characters at a time, and in Apply the loop that sends the statements; Chunks,
--                Numbers and Quotes are proofs.
--                Phases and Plan choose the files and read them all before a statement is sent;
--                Context, Substitute and Render are its placeholders, by the environment; Schemas and
--                Filling are proofs on them
--   Settings     ingestion/src/trade_sim/config.py
--   Session      SnowflakeSession of ingestion/src/trade_sim/loaders/snowflake_loader.py, over a
--                connector that answers by all it was asked before; Kwargs is what it connects with,
--                and Retries, Bounds, Sending and Composed are proofs
--   Loader       SnowflakeLoader of the same file
--   Doctor       scripts/doctor.py: Configuration, Probes and Warehouse are the checks, and
--                Report a proof
--   Validation   scripts/validate_dags.py: Search and Reachable are the search for the tasks behind
--                `start`, and Soundness the requirements
--   SqlRunner    scripts/run_sql.py
--   RunStatus    scripts/airflow_run_status.py
--   Writer       ingestion/src/trade_sim/writer.py
--   Commands     ingestion/src/trade_sim/cli.py
--   Alerts       airflow/dags/utils/alerting.py
--   Gates        the gates of airflow/dags/trade_pipeline.py and the order of its tasks; Preflight and
--                Ingest are the tasks before the first gate, Readings what the gates read with a
--                proof in Scorecard, Dbt the commands that run dbt, OneShot
--                airflow/dags/utils/snowflake.py, and Verification the batch that a run simulates
--                and reconciles
--   Tests        sample data and the theorems at concrete inputs
--
-- State is passed explicitly: the book and the three pools of `generate` are one record, and a
-- round maps it to the next. What `random.Random` returns for one event is a record of numbers,
-- which each call reduces to its own range, so a theorem for all draws holds for every seed. Times
-- are microseconds, dates are ordinals, and money is a whole number of ten-thousandths. Events that
-- the code changes in place are known by their position in the batch.
--
-- Three loops are not structural. The walk over business days runs on fuel of three rounds for each
-- business day, since between two business days lie two others at most; the slices of a list of
-- identifiers run on fuel of its length, since each slice takes one at least; and the
-- search in a DAG runs on a round for each task, since a task is put on the stack once.
--
-- Calls of the connector are a list, latest first, and a method of the session maps a session to a
-- result and the session after it. An attempt to connect is made for each of `max_retries`, by
-- structural recursion.
--
-- Simulators that share a directory are a step relation: one takes the lock and reads the book, mints
-- and enters trades, and saves the book when it gives up the lock. A simulator that is killed while
-- it holds the lock, and a platform without locks, are no steps of it.
--
-- What raises at a limit raises here: a `TradeEvent` whose identifier, UTI or currencies have not the
-- form of the schema, a date or a time behind the last of Python's calendar, and an amount of more
-- than 28 digits. A theorem that `generate` returns therefore asks for room: for each of n rounds a
-- number of nine digits at most, the longest step of a business time, and the largest amendment of a
-- notional, which a million rounds from any day up to 90 years of 365 days before the end of the
-- calendar satisfy for the times, and about 180 rounds for a notional of 500 million. A day from the
-- 31st of the calendar on leaves room for the faults.
--
-- Not modelled: the sampler of notionals, which works in floating point and is a draw here; of
-- pydantic's validation the types of the fields, and `\d` beyond ASCII; the labels of a manifest; the parsing of options and the texts
-- printed; scripts/selfcheck.py; the dashboard; the warehouse's own SQL. Of the alerts the bodies
-- of the mails are left out, and of the DAG what it logs.
pub mod Prelude
pub mod Reference
pub mod Schema
pub mod Book
pub mod Result
pub mod Generator
pub mod Arbitration
pub mod Reconcile
pub mod Deploy
pub mod Doctor
pub mod Session
pub mod Loader
pub mod Settings
pub mod RunStatus
pub mod SqlRunner
pub mod Writer
pub mod Commands
pub mod Alerts
pub mod Gates
pub mod Validation
pub mod Tests
