-- ===== src/Book/Minting.antt =====
-- No two simulators mint the same identifier, and a book survives its file:
-- TradeBook.exclusive, load and save of ingestion/src/trade_sim/generator.py.
use snowflake_trade_pipeline.Prelude.{
  ℕ, ◌+◌, ◌<◌, ◌≤◌, String, ◌≡◌, ◌≢◌, refl, sym, ◌∙◌, inl, inr, none, some, List, [], ◌∷◌, All,
  All-weaken, string_eq, arith, Option-cases, Option, map, contains,
}
use mathlib.Core.Path.{subst}
use snowflake_trade_pipeline.Prelude.Sorting.{sort_keys, lookup-sort_keys, sort_keys-map}
use snowflake_trade_pipeline.Prelude.Dict.{Dict, lookup}
use snowflake_trade_pipeline.Result.{ok, Returns, Yields-ok, Yields-bind, Yields-any}
use snowflake_trade_pipeline.Book.{
  TradeBook, TradeBookEntry, entry_of, allocate_trade_id, record_entry, trade_id_text,
  trade_id_text-injective,
}
use snowflake_trade_pipeline.Book.Identity.{IsWellKeyed}
use snowflake_trade_pipeline.Book.Sharing.{
  Json, Payload, asdict, known_only, entry_from, entries_from, load, save, Directory, Step, acquire,
  mint, enter, release, Reach, here, next,
}

encoded : TradeBookEntry → Dict String Json
encoded e = sort_keys (asdict e)

-- An entry is built again from its fields, whatever their order.
entry_from-asdict :
    (e : TradeBookEntry) (m l : Option String)
    → e.maturity_date ≡ m
    → e.last_event_ts ≡ l
    → entry_from (encoded e) ≡ ok e
unfolding encoded sort_keys asdict entry_from known_only lookup contains
entry_from-asdict e none none h k = rw (h, k) refl
entry_from-asdict e none (some s) h k = rw (h, k) refl
entry_from-asdict e (some s) none h k = rw (h, k) refl
entry_from-asdict e (some s) (some t) h k = rw (h, k) refl

entries_from-encoded :
    (d : Dict String TradeBookEntry) → entries_from (map (λ p. (p.0, encoded p.1)) d) ≡ ok d
unfolding entries_from
entries_from-encoded [] = refl
entries_from-encoded ((k, e) ∷ d) =
    rw (entry_from-asdict e e.maturity_date e.last_event_ts refl refl, entries_from-encoded d) refl

-- A book that is saved can be loaded again, from the fields of its entries by their names. What is
-- loaded goes on with the same sequence number and has the same entry, or none, under every
-- identifier.
pub load-save :
    (book : TradeBook)
    → Returns
        (λ b.
          (b.next_sequence ≡ book.next_sequence) × ((k : String) → entry_of b k ≡ entry_of book k))
        (load (some (save book)))
unfolding load save entry_of encoded
load-save book =
    rw (sort_keys-map encoded book.trades, entries_from-encoded (sort_keys book.trades))
      (refl, λ k. lookup-sort_keys book.trades k)

-- The sequence number that a load goes on with.
stored_number : Option Payload → ℕ
stored_number none = 1
stored_number (some raw) = elim raw.stored_sequence [ none ↦ 1 | some n ↦ n ]

load-number :
    (stored : Option Payload) (book : TradeBook)
    → load stored ≡ ok book
    → book.next_sequence ≡ stored_number stored
unfolding load stored_number
load-number none book e = Yields-ok (λ b. b.next_sequence ≡ 1) e refl
load-number (some raw) book e =
    Yields-ok (λ b. b.next_sequence ≡ stored_number (some raw)) e
      (Yields-bind (λ _. Unit {0}) (λ b. b.next_sequence ≡ stored_number (some raw))
        (entries_from (elim raw.stored_trades [ none ↦ [] | some d ↦ d ])) _ (Yields-any _)
        λ trades _. refl)

-- The sequence number that the next identifier is minted from.
upcoming : Directory → ℕ
unfolding stored_number
upcoming d = elim d.holder [ none ↦ stored_number d.stored | some h ↦ h.1.next_sequence ]

abbrev pub AreDistinct : List String → Type 0
AreDistinct [] = Unit
AreDistinct (k ∷ ks) = All (λ j. k ≢ j) ks × AreDistinct ks

-- An identifier of a sequence number from `first` on and below `below`.
record IsBetween (first below : ℕ) (trade_id : String) : Type 0 where
  sequence : ℕ
  late : first ≤ sequence
  used : sequence < below
  named : trade_id ≡ trade_id_text sequence

module _ (first : ℕ) where
  record IsConsistent (d : Directory) : Type 0 where
    grown : first ≤ upcoming d
    distinct : AreDistinct d.minted
    used : All (IsBetween first (upcoming d)) d.minted

  upcoming-free : (d : Directory) → d.holder ≡ none → upcoming d ≡ stored_number d.stored
  unfolding upcoming
  upcoming-free d e = rw (e, upcoming) refl

  upcoming-held :
      (d : Directory) (p : ℕ) (book : TradeBook)
      → d.holder ≡ some (p, book)
      → upcoming d ≡ book.next_sequence
  unfolding upcoming
  upcoming-held d p book e = rw (e, upcoming) refl

  minted_apart :
      (n : ℕ) (ks : List String) → All (IsBetween first n) ks → All (λ j. trade_id_text n ≢ j) ks
  minted_apart n ks h =
      All-weaken (IsBetween first n) (λ j. trade_id_text n ≢ j) ks
        (λ j m e. omega (arith, m.used, trade_id_text-injective n m.sequence (e ∙ m.named))) h

  minted_later :
      (n : ℕ) (ks : List String) → All (IsBetween first n) ks → All (IsBetween first (n + 1)) ks
  minted_later n ks h =
      All-weaken (IsBetween first n) (IsBetween first (n + 1)) ks
        (λ j m. record {
          sequence = m.sequence;
          late = m.late;
          used = omega (arith, m.used);
          named = m.named;
        })
        h

  -- What is minted stays between its bounds where the next number is the same.
  same_number :
      (d e : Directory)
      → upcoming d ≡ upcoming e
      → d.minted ≡ e.minted
      → IsConsistent d
      → IsConsistent e
  same_number d e n m c = record {
    grown = rw n at c.grown;
    distinct = rw m at c.distinct;
    used =
        subst (λ x. All (IsBetween first (upcoming e)) x) m
          (subst (λ x. All (IsBetween first x) d.minted) n c.used);
  }

  Step-IsConsistent : {d e : Directory} → Step d e → IsConsistent d → IsConsistent e
  unfolding upcoming allocate_trade_id record_entry save stored_number
  Step-IsConsistent (acquire p book d free found) c =
      same_number d _ (upcoming-free d free ∙ sym (load-number d.stored book found)) refl c
  Step-IsConsistent (enter p book entry d held) c =
      same_number d _ (upcoming-held d p book held) refl c
  Step-IsConsistent (release p book d held) c = same_number d _ (upcoming-held d p book held) refl c
  Step-IsConsistent (mint p book d held) c =
      let n = book.next_sequence in
      let same = upcoming-held d p book held in
      let used : All (IsBetween first n) d.minted =
        subst (λ x. All (IsBetween first x) d.minted) same c.used in
      record {
        grown = omega (arith, c.grown, same);
        distinct = (minted_apart n d.minted used, c.distinct);
        used = (
          record {
            sequence = n;
            late = omega (arith, c.grown, same);
            used = omega arith;
            named = refl;
          },
          minted_later n d.minted used,
        );
      }

  Reach-IsConsistent : {d e : Directory} → Reach d e → IsConsistent d → IsConsistent e
  Reach-IsConsistent here c = c
  Reach-IsConsistent (next r s) c = Step-IsConsistent s (Reach-IsConsistent r c)

between_absent :
    (book : TradeBook) (n : ℕ) (k : String)
    → IsWellKeyed book
    → IsBetween book.next_sequence n k
    → entry_of book k ≡ none
between_absent book n k w b = elim (Option-cases (entry_of book k)) [
  | inl e ↦ e
  | inr (entry, e) ↦
      let m = w.minted k entry e in
      absurd (
        omega (
          arith,
          m.used,
          b.late,
          trade_id_text-injective b.sequence m.sequence (sym b.named ∙ m.named),
        ))
]

-- Simulators share a directory in which nobody holds the lock and whose book, if there is one, can
-- be loaded and has only entries under identifiers that it has allocated. Then, in whatever order they take the lock,
-- mint, enter trades and give it up, no identifier is minted twice, and none was in that book.
pub Reach-AreDistinct :
    (start d : Directory) (book : TradeBook)
    → start.holder ≡ none
    → start.minted ≡ []
    → load start.stored ≡ ok book
    → IsWellKeyed book
    → Reach start d
    → AreDistinct d.minted × All (λ k. entry_of book k ≡ none) d.minted
Reach-AreDistinct start d book free fresh found w r =
    let first = book.next_sequence in
    let begun : IsConsistent first start = record {
      grown = omega (arith, upcoming-free first start free, load-number start.stored book found);
      distinct = subst AreDistinct (sym fresh) tt;
      used = subst (All (IsBetween first (upcoming start))) (sym fresh) tt;
    } in
    let c = Reach-IsConsistent first r begun in
    (
      c.distinct,
      All-weaken (IsBetween first (upcoming d)) (λ k. entry_of book k ≡ none) d.minted
          (λ k b. between_absent book (upcoming d) k w b) c.used,
    )
