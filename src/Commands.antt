-- ===== src/Commands.antt =====
-- `generate` and `load` of ingestion/src/trade_sim/cli.py: the loop over the batches, over the book
-- that a simulator holds while it has the lock.
pub mod Batches
pub mod Operations
pub mod Status
use snowflake_trade_pipeline.Prelude.{ℕ, String, List, [], ◌∷◌, ◌++◌, length}
use snowflake_trade_pipeline.Result.{Result, ok, err, ◌>>=◌}
use snowflake_trade_pipeline.Schema.{GeneratedEvent}
use snowflake_trade_pipeline.Schema.Codecs.{Codec}
use snowflake_trade_pipeline.Book.{TradeBook}
use snowflake_trade_pipeline.Generator.Draws.{Settings, Draws}
use snowflake_trade_pipeline.Generator.Run.{generate, versions_at_start}
use snowflake_trade_pipeline.Arbitration.Manifest.{BatchManifest, build_manifest}
use snowflake_trade_pipeline.Writer.{
  Files, BatchWriter, Moment, file_name, write, write_manifest, Summary, summarise_events,
}

-- What one round of the loop draws and reads: the reference, the draws of the events, the time.
pub record Batch : Type 0 where
  pub batch_ref : String
  pub draws : List Draws
  pub when : Moment

pub record Written : Type 0 where
  pub name : String
  pub events : List GeneratedEvent
  pub manifest : BatchManifest

-- The book, the files, and the batches written so far.
pub record Simulation : Type 0 where
  pub book : TradeBook
  pub files : Files
  pub written : List Written

module _ (codec : Codec) (settings : Settings) (as_of : ℕ) (gzip : String → String)
    (dump : BatchManifest → String) (w : BatchWriter) where
  unfoldable pub finished : Simulation → Batch → List GeneratedEvent → TradeBook → Simulation
  unfolding write write_manifest file_name build_manifest versions_at_start
  finished s b events book =
      let name = file_name w b.when b.batch_ref (length events) in
      let manifest = build_manifest codec events (versions_at_start s.book) b.batch_ref in
      record {
        book = book;
        files =
            write_manifest codec dump w manifest name
              (write codec gzip w events b.batch_ref b.when s.files);
        written = s.written ++ record { name = name; events = events; manifest = manifest } ∷ [];
      }

  unfoldable pub generate_batch : Simulation → Batch → Result Simulation
  unfolding generate finished
  generate_batch s b = do
    out ← generate codec settings as_of s.book b.draws
    ok (finished s b out.0 out.1.book)

  unfoldable pub generate_batches : Simulation → List Batch → Result Simulation
  unfolding generate_batch
  generate_batches s [] = ok s
  generate_batches s (b ∷ bs) = do t ← generate_batch s b; generate_batches t bs
