-- ===== src/Tests/Simulations.antt =====
-- Two batches generated and written from the book of the samples.
use snowflake_trade_pipeline.Prelude.{String, true, [], ◌∷◌, List, arith}
use snowflake_trade_pipeline.Result.{Returns}
use snowflake_trade_pipeline.Schema.Codecs.{tallies}
use snowflake_trade_pipeline.Arbitration.Manifest.{BatchManifest}
use snowflake_trade_pipeline.Writer.{BatchWriter, Moment}
use snowflake_trade_pipeline.Commands.{Batch, Simulation, generate_batches}
use snowflake_trade_pipeline.Commands.Batches.{HasWritten, generate_batches-HasWritten}
use snowflake_trade_pipeline.Tests.Samples.{settings, draws, book, book-IsStored}

abbrev writer : BatchWriter
writer = record {
  output_dir = "data/landing";
  env = "dev";
  compress = true;
  manifest_dir = "data/manifests";
}

abbrev when : Moment
when = record { stamp = "20260105T090000Z"; day = "2026-01-05" }

abbrev batches : List Batch
batches =
    record { batch_ref = "b1"; draws = draws 0 ∷ draws 900000 ∷ []; when = when }
    ∷ record { batch_ref = "b2"; draws = draws 100000 ∷ []; when = when }
    ∷ []

abbrev simulation : Simulation
simulation = record { book = book; files = []; written = [] }

abbrev packed : String → String
packed s = s

abbrev dumped : BatchManifest → String
dumped manifest = manifest.batch_ref

generate_batches-HasWritten_example :
    Returns
      (HasWritten tallies 2 simulation batches)
      (generate_batches tallies settings 40 packed dumped writer simulation batches)
generate_batches-HasWritten_example =
    generate_batches-HasWritten tallies settings 40 packed dumped writer (omega arith) (omega arith)
      2 simulation batches (omega arith) ((omega arith, (omega arith, tt)), ((omega arith, tt), tt))
      (omega arith, book-IsStored)
