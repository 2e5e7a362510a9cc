-- ===== src/Commands/Batches.antt =====
-- `generate` of ingestion/src/trade_sim/cli.py goes through all its batches, whatever it draws.
use snowflake_trade_pipeline.Prelude.{
  ℕ, ◌+◌, arith, ◌≤◌, String, ◌≡◌, refl, sym, ap, ◌∙◌, List, [], ◌∷◌, ◌++◌, some, length, ◌==◌,
  ==_refl, string_eq, eq_iff, contains, inl, inr, false, Bool-cases,
}
use mathlib.Core.List.{append_assoc, append-nil}
use snowflake_trade_pipeline.Prelude.Dict.{Dict, keys, lookup}
use snowflake_trade_pipeline.Result.{Returns, Returns-bind, Returns-weaken, Returns-Yields}
use snowflake_trade_pipeline.Schema.{GeneratedEvent}
use snowflake_trade_pipeline.Schema.Codecs.{Codec}
use snowflake_trade_pipeline.Book.{TradeBook, TradeBookEntry, entry_of}
use snowflake_trade_pipeline.Book.Identity.{IsMinted}
use snowflake_trade_pipeline.Generator.Draws.{Settings}
use snowflake_trade_pipeline.Generator.Readable.{first_day, last_day, most_rounds, IsReadable}
use snowflake_trade_pipeline.Generator.Run.{generate, begin, Generator}
use snowflake_trade_pipeline.Generator.Batch.{
  IsStored, IsRun, HaveRoom, generate-IsRun, lookup-absent,
}
use snowflake_trade_pipeline.Generator.Keys.{AreOnce, IsDict, generate-Yields}
use snowflake_trade_pipeline.Arbitration.Manifest.{BatchManifest, build_manifest, summarised}
use snowflake_trade_pipeline.Arbitration.Tallies.{length-settle}
use snowflake_trade_pipeline.Writer.{BatchWriter}
use snowflake_trade_pipeline.Commands.{
  Batch, Written, Simulation, finished, generate_batch, generate_batches,
}

IsStored-AreOnce :
    (codec : Codec) (n next : ℕ) (d : Dict String TradeBookEntry)
    → IsStored codec n next d
    → AreOnce d
IsStored-AreOnce codec n next [] s = tt
IsStored-AreOnce codec n next ((k, e) ∷ d) s = (s.3, IsStored-AreOnce codec n next d s.4)

absent_key :
    (d : Dict String TradeBookEntry) (k j : String) {e : TradeBookEntry}
    → contains (keys d) k ≡ false
    → lookup d j ≡ some e
    → (k == j) ≡ false
absent_key d k j h f = elim (Bool-cases (k == j)) [
  | inr apart ↦ apart
  | inl same ↦ let here : k ≡ j = (eq_iff k j).0 same in absurd (cc (f, here, lookup-absent d k h))
]

AreOnce-IsStored :
    (codec : Codec) (n next : ℕ) (d : Dict String TradeBookEntry)
    → AreOnce d
    → ((k : String) (e : TradeBookEntry)
        → lookup d k ≡ some e
        → (e.trade_id ≡ k) × IsMinted next k × IsReadable codec n e)
    → IsStored codec n next d
unfolding lookup
AreOnce-IsStored codec n next [] once f = tt
AreOnce-IsStored codec n next ((k, e) ∷ d) once f =
    let (named, minted, readable) = f k e (rw (==_refl k) refl) in
    (
      named,
      minted,
      readable,
      once.0,
      AreOnce-IsStored codec n next d once.1
          (λ j g found. f j g (rw (absent_key d k j once.0 found) found)),
    )

-- The batches written, each with the number of its events.
abbrev pub AreWritten : List Batch → List Written → Type 0
AreWritten [] [] = Unit
AreWritten (b ∷ bs) (w ∷ ws) =
    (length w.events ≡ length b.draws)
    × (w.manifest.total_events ≡ length b.draws)
    × AreWritten bs ws
AreWritten _ _ = ⊥

AreWritten-append :
    (b : Batch) (bs : List Batch) (ws vs : List Written)
    → AreWritten (b ∷ []) ws
    → AreWritten bs vs
    → AreWritten (b ∷ bs) (ws ++ vs)
AreWritten-append b bs [] vs h k = absurd h
AreWritten-append b bs (w ∷ []) vs h k = (h.0, h.1, k)
AreWritten-append b bs (w ∷ (v ∷ ws)) vs h k = absurd (h.2)

-- A book that can be loaded and gone on from for `n` rounds.
abbrev HasStored : Codec → ℕ → TradeBook → Type 0
HasStored codec n book =
    (book.next_sequence + n ≤ 1000000000) × IsStored codec n book.next_sequence book.trades

-- The batches are written behind those before, and the book can be read again.
abbrev pub HasWritten : Codec → ℕ → Simulation → List Batch → Simulation → Type 0
HasWritten codec n s bs t =
    HasStored codec n t.book
    × ((ws : List Written) × (t.written ≡ s.written ++ ws) × AreWritten bs ws)

-- The rounds of all the batches.
abbrev pub rounds : List Batch → ℕ
rounds [] = 0
rounds (b ∷ bs) = length b.draws + rounds bs

-- The notionals drawn have room for the rounds behind them, and for `more`.
abbrev pub AllHaveRoom : ℕ → List Batch → Type 0
AllHaveRoom more [] = Unit
AllHaveRoom more (b ∷ bs) = HaveRoom (rounds bs + more) b.draws × AllHaveRoom more bs

module _ (codec : Codec) (settings : Settings) (as_of : ℕ) (gzip : String → String)
    (dump : BatchManifest → String) (writer : BatchWriter) (late : first_day ≤ as_of)
    (early : as_of ≤ last_day) where
  HasStored-run :
      (n : ℕ) (book : TradeBook) (count : ℕ) (out : List GeneratedEvent × Generator)
      → IsRun codec n (begin book) count out
      → IsDict out.1.book
      → HasStored codec n out.1.book
  unfolding entry_of
  HasStored-run n book count out r once =
      let good = r.ready.good in
      (
        good.numbered,
        AreOnce-IsStored codec n out.1.book.next_sequence out.1.book.trades once (λ k e found.
            (good.keyed.keyed k e found, good.keyed.minted k e found, good.readable k e found)),
      )

  generate_batch-HasWritten :
      (n : ℕ) (s : Simulation) (b : Batch)
      → length b.draws + n ≤ most_rounds
      → HaveRoom n b.draws
      → HasStored codec (length b.draws + n) s.book
      → Returns
          (HasWritten codec n s (b ∷ []))
          (generate_batch codec settings as_of gzip dump writer s b)
  unfolding generate_batch finished build_manifest summarised
  generate_batch-HasWritten n s b few room stored =
      Returns-bind (λ out. IsRun codec n (begin s.book) (length b.draws) out × IsDict out.1.book)
        (HasWritten codec n s (b ∷ [])) (generate codec settings as_of s.book b.draws) _
        (Returns-Yields _ _ (generate codec settings as_of s.book b.draws)
          (generate-IsRun codec settings as_of late early n s.book b.draws few stored.0 room
            stored.1)
          (generate-Yields codec settings as_of s.book b.draws (
            IsStored-AreOnce codec (length b.draws + n) s.book.next_sequence s.book.trades
              stored.1)))
        λ out r. (
          HasStored-run n s.book (length b.draws) out r.0 r.1,
          (_, refl, (r.0.counted, length-settle codec out.0 _ ∙ r.0.counted, tt)),
        )

  -- From a book whose entries each stand once, under their own allocated identifier, valid and
  -- readable, on a day between the 31st of the calendar and the last that has room for every tenor,
  -- and if the numbers, the business times and the notionals held and drawn have room for the rounds
  -- of all the batches and `more` behind them, `generate` writes all its batches, for any rates and
  -- any other draws, each with a manifest that counts as many events as were asked for, and leaves a
  -- book of the same kind with room for `more` rounds, so that a later command can go on from it.
  pub generate_batches-HasWritten :
      (more : ℕ) (s : Simulation) (bs : List Batch)
      → rounds bs + more ≤ most_rounds
      → AllHaveRoom more bs
      → HasStored codec (rounds bs + more) s.book
      → Returns
          (HasWritten codec more s bs)
          (generate_batches codec settings as_of gzip dump writer s bs)
  unfolding generate_batches
  generate_batches-HasWritten more s [] few room stored =
      let none_left : 0 + more ≡ more = omega arith in
      (rw none_left at stored, ([], sym (append-nil s.written), tt))
  generate_batches-HasWritten more s (b ∷ bs) few room stored =
      let n = rounds bs + more in
      let shift : length b.draws + rounds bs + more ≡ length b.draws + (rounds bs + more) =
        omega arith in
      Returns-bind (HasWritten codec n s (b ∷ [])) (HasWritten codec more s (b ∷ bs))
        (generate_batch codec settings as_of gzip dump writer s b) _
        (generate_batch-HasWritten n s b (omega arith) room.0 (rw shift at stored))
        λ t h.
          Returns-weaken (HasWritten codec more t bs) (HasWritten codec more s (b ∷ bs))
            (generate_batches codec settings as_of gzip dump writer t bs)
            (generate_batches-HasWritten more t bs (omega arith) room.1 h.0)
            λ u k.
              let (ws, first, one) = h.1 in
              let (vs, more_written, others) = k.1 in
              (
                k.0,
                (
                  ws ++ vs,
                  more_written ∙ ap (λ x. x ++ vs) first ∙ append_assoc s.written ws vs,
                  AreWritten-append b bs ws vs one others,
                ),
              )
