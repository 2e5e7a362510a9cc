-- ===== src/Tests/Books.antt =====
-- The identifiers and the keys of the book of the samples.
use snowflake_trade_pipeline.Prelude.{ℕ, ◌≡◌, refl, none, arith}
use snowflake_trade_pipeline.Schema.Codecs.{tallies}
use snowflake_trade_pipeline.Book.{
  trade_id_text, trade_id_text-injective, allocate_trade_id, entry_of,
}
use snowflake_trade_pipeline.Book.Identity.{IsWellKeyed, allocate_fresh}
use snowflake_trade_pipeline.Generator.Batch.{begin-IsReady}
use snowflake_trade_pipeline.Tests.Samples.{book, book-IsStored}

book-IsWellKeyed : IsWellKeyed book
unfolding snowflake_trade_pipeline.Generator.Run.begin
book-IsWellKeyed = (begin-IsReady tallies 5 book (omega arith) book-IsStored).good.keyed

trade_id_text_short : trade_id_text 12 ≡ "TRD-000000012"
unfolding trade_id_text
trade_id_text_short = refl

trade_id_text_long : trade_id_text 1234567890 ≡ "TRD-1234567890"
unfolding trade_id_text
trade_id_text_long = refl

allocate_fresh_example : entry_of book (allocate_trade_id book).0 ≡ none
allocate_fresh_example = allocate_fresh book book-IsWellKeyed

trade_id_text-injective_example : ◌≡◌ {A = ℕ} 12 12
trade_id_text-injective_example = trade_id_text-injective 12 12 refl
