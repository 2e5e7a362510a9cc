-- ===== src/Tests/Sharing.antt =====
-- Two simulators take turns on a new directory.
use snowflake_trade_pipeline.Prelude.{
  contains, String, ◌≡◌, refl, none, some, [], ◌∷◌, string_eq, All,
}
use snowflake_trade_pipeline.Prelude.Dict.{lookup}
use snowflake_trade_pipeline.Prelude.Sorting.{sort_keys}
use snowflake_trade_pipeline.Result.{Returns, err, type_error}
use snowflake_trade_pipeline.Book.{TradeBook, entry_of, allocate_trade_id, trade_id_text}
use snowflake_trade_pipeline.Book.Identity.{IsWellKeyed}
use snowflake_trade_pipeline.Book.Sharing.{
  entries_from, entry_from, known_only, text, Directory, Reach, here, next, acquire, mint, release,
  load, save, empty_book,
}
use snowflake_trade_pipeline.Book.Minting.{AreDistinct, Reach-AreDistinct, load-save}
use snowflake_trade_pipeline.Tests.Samples.{book}

abbrev opened : Directory
opened = record { stored = none; holder = none; minted = [] }

abbrev minted_once : TradeBook
minted_once = record { trades = []; next_sequence = 2 }

abbrev minted_twice : TradeBook
minted_twice = record { trades = []; next_sequence = 3 }

-- Simulator 1 mints and gives up the lock, and then simulator 2.
abbrev shared : Directory
shared = record {
  stored = some (save minted_twice);
  holder = none;
  minted = trade_id_text 2 ∷ trade_id_text 1 ∷ [];
}

taken_in_turn : Reach opened shared
unfolding load save entries_from allocate_trade_id sort_keys
taken_in_turn =
    next
      (next
        (next
          (next
            (next (next here (acquire 1 empty_book opened refl refl))
              (mint 1 empty_book (record opened { holder = some (1, empty_book) }) refl))
            (release 1 minted_once
              (record opened { holder = some (1, minted_once); minted = trade_id_text 1 ∷ [] })
              refl))
          (acquire 2 minted_once
            (record opened { stored = some (save minted_once); minted = trade_id_text 1 ∷ [] }) refl
            refl))
        (mint 2 minted_once
          record {
            stored = some (save minted_once);
            holder = some (2, minted_once);
            minted = trade_id_text 1 ∷ [];
          }
          refl))
      (release 2 minted_twice
        record {
          stored = some (save minted_once);
          holder = some (2, minted_twice);
          minted = trade_id_text 2 ∷ trade_id_text 1 ∷ [];
        }
        refl)

empty_book-IsWellKeyed : IsWellKeyed empty_book
unfolding entry_of lookup
empty_book-IsWellKeyed = record { keyed = λ k e h. absurd (cc h); minted = λ k e h. absurd (cc h) }

Reach-AreDistinct_example :
    AreDistinct shared.minted × All (λ k. entry_of empty_book k ≡ none) shared.minted
unfolding load
Reach-AreDistinct_example =
    Reach-AreDistinct opened shared empty_book refl refl refl empty_book-IsWellKeyed taken_in_turn

load-save_example :
    Returns
      (λ b.
        (b.next_sequence ≡ book.next_sequence) × ((k : String) → entry_of b k ≡ entry_of book k))
      (load (some (save book)))
load-save_example = load-save book

-- A field that the entry does not have is refused.
unknown_field : entry_from (("venue", text "XLON") ∷ []) ≡ err type_error
unfolding entry_from known_only contains
unknown_field = refl
