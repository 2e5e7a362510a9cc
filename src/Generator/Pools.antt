-- ===== src/Generator/Pools.antt =====
-- The invariant of the loop of `generate` in ingestion/src/trade_sim/generator.py: the pools are
-- exactly the trades that can be amended, resent and replaced.
pub mod Members
pub mod Refresh
pub mod Update
use snowflake_trade_pipeline.Prelude.{
  IsNodup, ℕ, suc, ◌+◌, ◌≤◌, arith, String, ◌≡◌, Bool, true, false, not, ◌&&◌, none, some, ltb,
  contains, string_eq,
}
use snowflake_trade_pipeline.Schema.Codecs.{Codec}
use snowflake_trade_pipeline.Book.{TradeBook, TradeBookEntry, entry_of}
use snowflake_trade_pipeline.Book.Identity.{IsWellKeyed}
use snowflake_trade_pipeline.Generator.Readable.{IsReadable, IsReadable-weaken}
use snowflake_trade_pipeline.Generator.Run.{Generator, known_version}

-- The book holds the trade, and it is not cancelled.
unfoldable pub is_live : TradeBook → String → Bool
is_live book k = elim (entry_of book k) [ none ↦ false | some e ↦ not e.is_cancelled ]

-- A book that the generator can go on from for `n` rounds: its numbers suffice, too.
pub record IsGood (codec : Codec) (n : ℕ) (book : TradeBook) : Type 0 where
  pub keyed : IsWellKeyed book
  pub numbered : book.next_sequence + n ≤ 1000000000
  pub readable : (k : String) (e : TradeBookEntry) → entry_of book k ≡ some e → IsReadable codec n e

pub record IsReady (codec : Codec) (n : ℕ) (g : Generator) : Type 0 where
  pub good : IsGood codec n g.book
  pub amendable_lem : (k : String) → contains g.amendable_ids k ≡ is_live g.book k
  pub resendable_lem :
      (k : String)
      → contains g.resendable_ids k ≡ (is_live g.book k && ltb 1 (known_version g.book k))
  pub replaceable_live :
      (k : String) → contains g.replaceable_ids k ≡ true → is_live g.book k ≡ true
  pub amendable_once : IsNodup g.amendable_ids
  pub resendable_once : IsNodup g.resendable_ids
  pub replaceable_once : IsNodup g.replaceable_ids

pub IsGood-weaken :
    (codec : Codec) (n : ℕ) (book : TradeBook) → IsGood codec (suc n) book → IsGood codec n book
IsGood-weaken codec n book g = record {
  keyed = g.keyed;
  numbered = omega (arith, g.numbered);
  readable = λ k e h. IsReadable-weaken codec n e (g.readable k e h);
}

pub IsReady-weaken :
    (codec : Codec) (n : ℕ) (g : Generator) → IsReady codec (suc n) g → IsReady codec n g
IsReady-weaken codec n g r = record {
  good = IsGood-weaken codec n g.book r.good;
  amendable_lem = r.amendable_lem;
  resendable_lem = r.resendable_lem;
  replaceable_live = r.replaceable_live;
  amendable_once = r.amendable_once;
  resendable_once = r.resendable_once;
  replaceable_once = r.replaceable_once;
}
