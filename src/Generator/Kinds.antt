-- ===== src/Generator/Kinds.antt =====
-- How an emission of `generate` in ingestion/src/trade_sim/generator.py comes about, and what its
-- version is to the one that the book holds.
use snowflake_trade_pipeline.Prelude.{
  is_empty, ℕ, suc, ◌<◌, ◌+◌, String, ◌≡◌, refl, Bool, true, false, List, [], ◌∷◌, none, some,
  contains, string_eq, eq_iff, arith, length, All, All-weaken, if◌then◌else◌, Option-cases, inl,
  inr, ◌⊎◌,
}
use snowflake_trade_pipeline.Schema.{TradeAction, new, amend, cancel}
use snowflake_trade_pipeline.Schema.Codecs.{Codec}
use snowflake_trade_pipeline.Book.{TradeBook, TradeBookEntry, entry_of, allocate_trade_id}
use snowflake_trade_pipeline.Book.Identity.{IsMinted, IsMinted-later}
use snowflake_trade_pipeline.Generator.Readable.{IsKept, IsReadable-weaken}
use snowflake_trade_pipeline.Generator.Run.{Generator, Emission, known_version}
use snowflake_trade_pipeline.Generator.Pools.{is_live, IsGood}
use snowflake_trade_pipeline.Generator.Pools.Refresh.{IsRefresh}

-- How an emission came about.
pub data Kind (g : Generator) (e : Emission) : Type 0 where
  stale :
      e.mutates_book ≡ false
      → is_live g.book e.event.trade_id ≡ true
      → e.event.trade_version < known_version g.book e.event.trade_id
      → Kind g e
  replaced :
      e.mutates_book ≡ false
      → is_live g.book e.event.trade_id ≡ true
      → e.event.trade_version ≡ known_version g.book e.event.trade_id
      → Kind g e
  amended :
      e.mutates_book ≡ true
      → (e.event.action ≡ amend) ⊎ (e.event.action ≡ cancel)
      → is_live g.book e.event.trade_id ≡ true
      → e.event.trade_version ≡ known_version g.book e.event.trade_id + 1
      → Kind g e
  booked :
      e.mutates_book ≡ true
      → e.event.action ≡ new
      → e.event.trade_version ≡ 1
      → entry_of g.book e.event.trade_id ≡ none
      → Kind g e

pub record IsEmission (codec : Codec) (n : ℕ) (g : Generator) (e : Emission) : Type 0 where
  pub refreshed : IsRefresh codec n g.book e.book
  pub minted : IsMinted e.book.next_sequence e.event.trade_id
  pub kept : IsKept n e.event
  pub kind : Kind g e

pub All-contains : (pool : List String) → All (λ k. contains pool k ≡ true) pool
unfolding contains
All-contains [] = tt
All-contains (x ∷ xs) = (
  ground (arith, eq_iff x x),
  All-weaken (λ k. contains xs k ≡ true) _ xs (λ k h. ground arith) (All-contains xs),
)

pub length-is_empty : (pool : List String) → is_empty pool ≡ false → 0 < length pool
length-is_empty [] h = cc
length-is_empty (x ∷ xs) h = omega arith

-- The entry that is picked from a pool of trades that are live.
pub record IsPicked (book : TradeBook) (pool : List String) (e : TradeBookEntry) : Type 0 where
  pub trade_id : String
  pub member : contains pool trade_id ≡ true
  pub held : entry_of book trade_id ≡ some e

pub live_entry :
    (book : TradeBook) (k : String)
    → is_live book k ≡ true
    → (e : TradeBookEntry) × (entry_of book k ≡ some e)
unfolding is_live
live_entry book k h = elim (Option-cases (entry_of book k)) [
  | inl absent ↦ absurd (ground arith)
  | inr (e, held) ↦ (e, held)
]

pub known_version-held :
    (book : TradeBook) (k : String) (e : TradeBookEntry)
    → entry_of book k ≡ some e
    → known_version book k ≡ e.trade_version
unfolding known_version
known_version-held book k e h = rw (h, known_version)

pub allocate-IsRefresh :
    (codec : Codec) (n : ℕ) (book : TradeBook)
    → IsGood codec (suc n) book
    → IsRefresh codec n book (allocate_trade_id book).1
unfolding allocate_trade_id is_live known_version entry_of
allocate-IsRefresh codec n book g = record {
  good = record {
    keyed = record {
      keyed = g.keyed.keyed;
      minted = λ k e h. IsMinted-later (omega arith) (g.keyed.minted k e h);
    };
    numbered = omega (arith, g.numbered);
    readable = λ k e h. IsReadable-weaken codec n e (g.readable k e h);
  };
  same_live = λ k. refl;
  same_version = λ k. refl;
}

pub allocate-IsMinted :
    (book : TradeBook)
    → IsMinted (allocate_trade_id book).1.next_sequence (allocate_trade_id book).0
unfolding allocate_trade_id
allocate-IsMinted book = record { sequence = book.next_sequence; used = omega arith; named = refl }

pub amended_action :
    (b : Bool) (a : TradeAction) → a ≡ (if b then cancel else amend) → (a ≡ amend) ⊎ (a ≡ cancel)
amended_action true a h = inr h
amended_action false a h = inl h
