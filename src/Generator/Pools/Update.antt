-- ===== src/Generator/Pools/Update.antt =====
-- `_apply_to_book` with the pools' update: after a booking, an amendment or a cancellation the
-- pools are again exactly the trades that can be amended, resent and replaced.
use snowflake_trade_pipeline.Prelude.{
  IsNodup, ℕ, ◌+◌, String, ◌≡◌, ◌∙◌, Bool, true, false, not, ◌&&◌, List, [], ◌∷◌, ◌++◌, ltb,
  contains, string_eq, ◌==◌, eq_iff, arith, if◌then◌else◌, Bool-cases, inl, inr, nat_eq,
}
use snowflake_trade_pipeline.Result.{Returns}
use snowflake_trade_pipeline.Schema.{TradeEvent, TradeAction, new, amend, cancel}
use snowflake_trade_pipeline.Schema.Codecs.{Codec}
use snowflake_trade_pipeline.Book.{TradeBook}
use snowflake_trade_pipeline.Book.Identity.{IsMinted, entry_of-record}
use snowflake_trade_pipeline.Generator.Readable.{IsKept, book_entry-IsReadable}
use snowflake_trade_pipeline.Generator.Run.{
  Generator, known_version, book_entry, apply_to_book, update_pools,
}
use snowflake_trade_pipeline.Generator.Pools.{is_live, IsGood, IsReady}
use snowflake_trade_pipeline.Generator.Pools.Members.{
  contains-snoc, IsNodup-snoc, contains-drop_first, IsNodup-drop_first, discard_id-drop_first,
  remove_id-ok,
}
use snowflake_trade_pipeline.Generator.Pools.Refresh.{record-IsGood}

abbrev is_cancel : TradeAction → Bool
is_cancel cancel = true
is_cancel _ = false

module _ (codec : Codec) (book : TradeBook) (event : TradeEvent) where
  is_live-apply :
      (k : String)
      → is_live (apply_to_book codec book event) k
        ≡ (if event.trade_id == k then not (is_cancel event.action) else is_live book k)
  unfolding is_live apply_to_book book_entry
  is_live-apply k =
      ground (arith, entry_of-record book (book_entry codec event) k, eq_iff event.trade_id k)

  pub known_version-apply :
      (k : String)
      → known_version (apply_to_book codec book event) k
        ≡ (if event.trade_id == k then event.trade_version else known_version book k)
  unfolding known_version apply_to_book book_entry
  known_version-apply k =
      ground (arith, entry_of-record book (book_entry codec event) k, eq_iff event.trade_id k)

  apply-IsGood :
      {n : ℕ}
      → IsGood codec n book
      → IsMinted book.next_sequence event.trade_id
      → IsKept n event
      → IsGood codec n (apply_to_book codec book event)
  unfolding apply_to_book book_entry
  apply-IsGood g m s =
      record-IsGood codec book (book_entry codec event) g m (book_entry-IsReadable codec _ event s)

module _ (codec : Codec) (n : ℕ) (g : Generator) (event : TradeEvent) (r : IsReady codec n g)
    (m : IsMinted g.book.next_sequence event.trade_id) (s : IsKept n event) where
  abbrev taken : Generator
  taken = record g { book = apply_to_book codec g.book event }

  -- A booking enters the pools of the trades to amend and to replace.
  pub update_pools-new :
      event.action ≡ new
      → event.trade_version ≡ 1
      → is_live g.book event.trade_id ≡ false
      → Returns (IsReady codec n) (update_pools codec taken event new)
  unfolding update_pools
  update_pools-new acted version unknown = record {
    good = apply-IsGood codec g.book event r.good m s;
    amendable_lem = λ k. ground (
      arith,
      contains-snoc g.amendable_ids event.trade_id k,
      is_live-apply codec g.book event k,
      r.amendable_lem k,
    );
    resendable_lem = λ k. ground (
      arith,
      is_live-apply codec g.book event k,
      known_version-apply codec g.book event k,
      r.resendable_lem k,
      r.resendable_lem event.trade_id,
      eq_iff event.trade_id k,
    );
    replaceable_live = λ k h. ground (
      arith,
      contains-snoc g.replaceable_ids event.trade_id k,
      is_live-apply codec g.book event k,
      r.replaceable_live k,
    );
    amendable_once =
        IsNodup-snoc g.amendable_ids event.trade_id r.amendable_once
          (r.amendable_lem event.trade_id ∙ unknown);
    resendable_once = r.resendable_once;
    replaceable_once =
        IsNodup-snoc g.replaceable_ids event.trade_id r.replaceable_once
          (ground (arith, r.replaceable_live event.trade_id));
  }

  amended : (pool : List String) → Generator
  amended pool = record taken { resendable_ids = pool }

  amended-IsReady :
      (pool : List String)
      → event.action ≡ amend
      → is_live g.book event.trade_id ≡ true
      → ((k : String)
          → contains pool k ≡ (
              is_live g.book k
              && ltb 1
                  (if event.trade_id == k then event.trade_version else known_version g.book k)))
      → IsNodup pool
      → IsReady codec n (amended pool)
  unfolding amended
  amended-IsReady pool acted live members once = record {
    good = apply-IsGood codec g.book event r.good m s;
    amendable_lem = λ k.
        ground
          (arith, is_live-apply codec g.book event k, r.amendable_lem k, eq_iff event.trade_id k);
    resendable_lem = λ k. ground (
      arith,
      is_live-apply codec g.book event k,
      known_version-apply codec g.book event k,
      members k,
      eq_iff event.trade_id k,
    );
    replaceable_live =
        λ k h. ground (arith, is_live-apply codec g.book event k, r.replaceable_live k);
    amendable_once = r.amendable_once;
    resendable_once = once;
    replaceable_once = r.replaceable_once;
  }

  -- The amendment to version 2 makes a trade one that can arrive late.
  pub update_pools-amend :
      event.action ≡ amend
      → event.trade_version ≡ known_version g.book event.trade_id + 1
      → is_live g.book event.trade_id ≡ true
      → Returns (IsReady codec n) (update_pools codec taken event amend)
  unfolding update_pools amended
  update_pools-amend acted version live = elim (Bool-cases (event.trade_version == 2)) [
    | inl second ↦ rw second (
        amended-IsReady (g.resendable_ids ++ event.trade_id ∷ []) acted live
          (λ k. ground (
            arith,
            contains-snoc g.resendable_ids event.trade_id k,
            r.resendable_lem k,
            eq_iff event.trade_id k,
          ))
          (IsNodup-snoc g.resendable_ids event.trade_id r.resendable_once
            (ground (arith, r.resendable_lem event.trade_id))))
    | inr later ↦ rw later (
        amended-IsReady g.resendable_ids acted live
          (λ k. ground (arith, r.resendable_lem k, eq_iff event.trade_id k)) r.resendable_once)
  ]

  -- A cancellation leaves every pool, and its removal cannot fail.
  pub update_pools-cancel :
      event.action ≡ cancel
      → is_live g.book event.trade_id ≡ true
      → Returns (IsReady codec n) (update_pools codec taken event cancel)
  unfolding update_pools
  update_pools-cancel acted live =
      rw
        (
          remove_id-ok g.amendable_ids event.trade_id (r.amendable_lem event.trade_id ∙ live),
          discard_id-drop_first g.replaceable_ids event.trade_id,
          discard_id-drop_first g.resendable_ids event.trade_id,
        )
        (record {
          good = apply-IsGood codec g.book event r.good m s;
          amendable_lem = λ k. ground (
            arith,
            contains-drop_first g.amendable_ids event.trade_id k r.amendable_once,
            is_live-apply codec g.book event k,
            r.amendable_lem k,
          );
          resendable_lem = λ k. ground (
            arith,
            contains-drop_first g.resendable_ids event.trade_id k r.resendable_once,
            is_live-apply codec g.book event k,
            known_version-apply codec g.book event k,
            r.resendable_lem k,
          );
          replaceable_live = λ k h. ground (
            arith,
            contains-drop_first g.replaceable_ids event.trade_id k r.replaceable_once,
            is_live-apply codec g.book event k,
            r.replaceable_live k,
          );
          amendable_once = IsNodup-drop_first g.amendable_ids event.trade_id r.amendable_once;
          resendable_once = IsNodup-drop_first g.resendable_ids event.trade_id r.resendable_once;
          replaceable_once = IsNodup-drop_first g.replaceable_ids event.trade_id r.replaceable_once;
        })
