-- ===== src/Book/Identity.antt =====
-- Identifiers are minted once: a book holds only entries under their own identifiers, which are
-- those of sequence numbers that it has used up.
use snowflake_trade_pipeline.Prelude.{
  ℕ, ◌+◌, ◌<◌, String, ◌≡◌, none, some, arith, string_eq, ◌==◌, eq_iff, if◌then◌else◌, inl, inr,
  Option-cases, Bool-cases, ◌⊎◌,
}
use snowflake_trade_pipeline.Prelude.Dict.{lookup-insert}
use snowflake_trade_pipeline.Book.{
  TradeBook, TradeBookEntry, entry_of, record_entry, allocate_trade_id, trade_id_text,
  trade_id_text-injective,
}

pub record IsMinted (next : ℕ) (trade_id : String) : Type 0 where
  pub sequence : ℕ
  pub used : sequence < next
  pub named : trade_id ≡ trade_id_text sequence

pub IsMinted-later : {m n : ℕ} {k : String} → m < n + 1 → IsMinted m k → IsMinted n k
IsMinted-later h i = record { sequence = i.sequence; used = omega arith; named = i.named }

pub record IsWellKeyed (book : TradeBook) : Type 0 where
  pub keyed : (k : String) (e : TradeBookEntry) → entry_of book k ≡ some e → e.trade_id ≡ k
  pub minted :
      (k : String) (e : TradeBookEntry) → entry_of book k ≡ some e → IsMinted book.next_sequence k

pub entry_of-record :
    (book : TradeBook) (entry : TradeBookEntry) (k : String)
    → entry_of (record_entry book entry) k
      ≡ (if entry.trade_id == k then some entry else entry_of book k)
unfolding entry_of record_entry
entry_of-record book entry k = lookup-insert book.trades entry.trade_id k entry

pub entry_of-record_cases :
    (book : TradeBook) (entry : TradeBookEntry) (k : String) {e : TradeBookEntry}
    → entry_of (record_entry book entry) k ≡ some e
    → (entry.trade_id ≡ k) × (entry ≡ e) ⊎ (entry_of book k ≡ some e)
entry_of-record_cases book entry k h = elim (Bool-cases (entry.trade_id == k)) [
  | inl same ↦ inl ((eq_iff entry.trade_id k).0 same, cc (entry_of-record book entry k, same))
  | inr other ↦ inr (cc (entry_of-record book entry k, other))
]

-- If every entry of a book stands under its own identifier, one that the book has allocated, then
-- so it does after an entry with an allocated identifier is recorded.
pub record-IsWellKeyed :
    (book : TradeBook) (entry : TradeBookEntry)
    → IsWellKeyed book
    → IsMinted book.next_sequence entry.trade_id
    → IsWellKeyed (record_entry book entry)
unfolding record_entry
record-IsWellKeyed book entry w m = record {
  keyed = λ k e h. elim (entry_of-record_cases book entry k h) [
    | inl (named, same) ↦ cc
    | inr old ↦ w.keyed k e old
  ];
  minted = λ k e h. elim (entry_of-record_cases book entry k h) [
    | inl (named, same) ↦ rw named at m
    | inr old ↦ w.minted k e old
  ];
}

-- If every entry of a book stands under its own identifier, one that the book has allocated, then
-- the identifier that is allocated next is in no entry.
pub allocate_fresh :
    (book : TradeBook) → IsWellKeyed book → entry_of book (allocate_trade_id book).0 ≡ none
unfolding allocate_trade_id
allocate_fresh book w = elim (Option-cases (entry_of book (trade_id_text book.next_sequence))) [
  | inl e ↦ e
  | inr (entry, e) ↦
      let m = w.minted _ entry e in
      absurd (omega (arith, trade_id_text-injective book.next_sequence m.sequence m.named))
]
