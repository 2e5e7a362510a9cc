-- ===== src/Generator/Batch.antt =====
-- `generate` of ingestion/src/trade_sim/generator.py over a stored book: a batch of any size is
-- produced whole, from any seed.
use snowflake_trade_pipeline.Prelude.{
  IsNodup, ℕ, ◌+◌, suc, ◌≤◌, String, ◌≡◌, refl, ap, Bool, true, false, not, ◌&&◌, List, [], ◌∷◌,
  map, Option, none, some, ltb, string_eq, ◌==◌, eq_iff, arith, length, contains, keep, Bool-cases,
  inl, inr, ◌⊎◌, ◌≢◌, All,
}
use snowflake_trade_pipeline.Prelude.Dict.{Dict, keys, values, lookup}
use snowflake_trade_pipeline.Result.{Returns, Returns-bind}
use snowflake_trade_pipeline.Schema.{GeneratedEvent, TradeEvent}
use snowflake_trade_pipeline.Schema.Codecs.{Codec}
use snowflake_trade_pipeline.Book.{TradeBook, TradeBookEntry, entry_of, amendable}
use snowflake_trade_pipeline.Book.Identity.{IsMinted}
use snowflake_trade_pipeline.Generator.Draws.{Settings, Draws}
use snowflake_trade_pipeline.Generator.Readable.{
  first_day, last_day, most_rounds, HasRoom, IsReadable,
}
use snowflake_trade_pipeline.Generator.Faults.{Corrupt}
use snowflake_trade_pipeline.Generator.Run.{
  Generator, known_version, begin, step, run, generate, generated,
}
use snowflake_trade_pipeline.Generator.Pools.{is_live, IsReady}
use snowflake_trade_pipeline.Generator.Settling.{is_late}
use snowflake_trade_pipeline.Generator.Step.{IsStep, IsFaulted, step-IsStep}

-- The entries of a book as it is loaded: each once, under its own identifier, minted and readable.
abbrev pub IsStored : Codec → ℕ → ℕ → Dict String TradeBookEntry → Type 0
IsStored codec n next [] = Unit
IsStored codec n next ((k, e) ∷ d) =
    (e.trade_id ≡ k)
    × IsMinted next k
    × IsReadable codec n e
    × (contains (keys d) k ≡ false)
    × IsStored codec n next d

pub lookup-absent :
    (d : Dict String TradeBookEntry) (k : String) → contains (keys d) k ≡ false → lookup d k ≡ none
unfolding lookup contains
lookup-absent [] k h = refl
lookup-absent ((j, e) ∷ d) k h = ground (arith, lookup-absent d k)

-- A test of the entry that stands under an identifier.
abbrev holds : (TradeBookEntry → Bool) → Option TradeBookEntry → Bool
holds p none = false
holds p (some e) = p e

abbrev pool : (TradeBookEntry → Bool) → Dict String TradeBookEntry → List String
pool p d = map (λ e. e.trade_id) (keep p (values d))

module _ (codec : Codec) (n next : ℕ) where
  contains-pool :
      (p : TradeBookEntry → Bool) (d : Dict String TradeBookEntry) (k : String)
      → IsStored codec n next d
      → contains (pool p d) k ≡ holds p (lookup d k)
  unfolding contains lookup keep
  contains-pool p [] k s = refl
  contains-pool p ((j, e) ∷ d) k s =
      ground (
        arith,
        contains-pool p d k s.4,
        eq_iff j k,
        eq_iff e.trade_id k,
        lookup-absent d j s.3,
        s.0,
      )

  pool-IsNodup :
      (p : TradeBookEntry → Bool) (d : Dict String TradeBookEntry)
      → IsStored codec n next d
      → IsNodup (pool p d)
  unfolding keep
  pool-IsNodup p [] s = tt
  pool-IsNodup p ((j, e) ∷ d) s = elim (Bool-cases (p e)) [
    | inl c ↦ rw c (
      ground (arith, contains-pool p d e.trade_id s.4, lookup-absent d j s.3, s.0),
      pool-IsNodup p d s.4,
    )
    | inr c ↦ rw c (pool-IsNodup p d s.4)
  ]

  stored-entry :
      (d : Dict String TradeBookEntry) (k : String) (e : TradeBookEntry)
      → IsStored codec n next d
      → lookup d k ≡ some e
      → (e.trade_id ≡ k) × IsMinted next k × IsReadable codec n e
  unfolding lookup
  stored-entry [] k e s h = absurd (cc)
  stored-entry ((j, f) ∷ d) k e s h = elim (Bool-cases (j == k)) [
    | inl c ↦
        let here : j ≡ k = (eq_iff j k).0 c in
        let same : f ≡ e = ground arith in rw (← here, ← same) (s.0, s.1, s.2)
    | inr c ↦ stored-entry d k e s.4 (ground arith)
  ]

keep-keep {ℓ} :
    {A : Type ℓ} (p q : A → Bool) (xs : List A) → keep p (keep q xs) ≡ keep (λ x. q x && p x) xs
unfolding keep
keep-keep p q [] = refl
keep-keep p q (x ∷ xs) = ground (arith, keep-keep p q xs)

-- From a book whose entries each stand once, under their own allocated identifier and readable, the
-- pools in front of the loop are exactly the trades that can be amended and resent, each once.
pub begin-IsReady :
    (codec : Codec) (n : ℕ) (book : TradeBook)
    → book.next_sequence + n ≤ 1000000000
    → IsStored codec n book.next_sequence book.trades
    → IsReady codec n (begin book)
unfolding begin amendable entry_of is_live known_version
begin-IsReady codec n book numbered s = record {
  good = record {
    keyed = record {
      keyed = λ k e h. (stored-entry codec n book.next_sequence book.trades k e s h).0;
      minted = λ k e h. (stored-entry codec n book.next_sequence book.trades k e s h).1;
    };
    numbered = numbered;
    readable = λ k e h. (stored-entry codec n book.next_sequence book.trades k e s h).2;
  };
  amendable_lem = λ k.
      ground
        (arith, contains-pool codec n book.next_sequence (λ e. not e.is_cancelled) book.trades k s);
  resendable_lem = λ k. ground (
    arith,
    contains-pool codec n book.next_sequence (λ e. not e.is_cancelled && ltb 1 e.trade_version)
        book.trades k s,
    keep-keep (λ e. ltb 1 e.trade_version) (λ e. not e.is_cancelled) (values book.trades),
  );
  replaceable_live = λ k h. unfold contains in ground arith;
  amendable_once = pool-IsNodup codec n book.next_sequence _ book.trades s;
  resendable_once =
      rw (keep-keep (λ e. ltb 1 e.trade_version) (λ e. not e.is_cancelled) (values book.trades)) (
        pool-IsNodup codec n book.next_sequence (λ e. not e.is_cancelled && ltb 1 e.trade_version)
          book.trades s);
  replaceable_once = tt;
}

-- What the manifest may say of a generated event: it is accepted or rejected, a rejection names a
-- rule, and an accepted event has valid fields and is not called stale.
pub record IsJudged (event : GeneratedEvent) : Type 0 where
  pub decided : (event.expected_verdict ≡ "ACCEPTED") ⊎ (event.expected_verdict ≡ "REJECTED")
  pub grounds : event.expected_verdict ≡ "REJECTED" → event.expected_rule_codes ≢ []
  pub accepted :
      event.expected_verdict ≡ "ACCEPTED"
      → (event.field_valid ≡ true) × (contains event.expected_rule_codes "RJ001" ≡ false)

generated-IsJudged :
    (codec : Codec) (late : Bool) (event : TradeEvent) (fault : Option Corrupt)
    → IsFaulted fault
    → IsJudged (generated codec late event fault)
unfolding generated contains
generated-IsJudged codec true event none h = record {
  decided = inr refl;
  grounds = λ _ e. cc;
  accepted = λ e. absurd (ground (arith, eq_iff "REJECTED" "ACCEPTED"));
}
generated-IsJudged codec false event none h = record {
  decided = inl refl;
  grounds = λ e. absurd (ground (arith, eq_iff "ACCEPTED" "REJECTED"));
  accepted = λ _. (refl, refl);
}
generated-IsJudged codec late event (some c) h = record {
  decided = ground arith;
  grounds = ground (arith, eq_iff "ACCEPTED" "REJECTED", h.0);
  accepted = ground (arith, eq_iff "REJECTED" "ACCEPTED", h.1);
}

-- What a run gives: one event for each round, each with a verdict, and a state to go on from.
pub record IsRun (codec : Codec) (n : ℕ) (g : Generator) (count : ℕ)
    (out : List GeneratedEvent × Generator) : Type 0 where
  pub counted : length out.0 ≡ count
  pub judged : All IsJudged out.0
  pub ready : IsReady codec n out.1
  pub grows : (k : String) → known_version g.book k ≤ known_version out.1.book k

-- The notionals drawn can be amended in each of the rounds behind them, and `more` times.
abbrev pub HaveRoom : ℕ → List Draws → Type 0
HaveRoom more [] = Unit
HaveRoom more (d ∷ ds) = HasRoom (length ds + more) d.fields.notional × HaveRoom more ds

module _ (codec : Codec) (settings : Settings) (as_of : ℕ) (late : first_day ≤ as_of)
    (early : as_of ≤ last_day) where
  run-IsRun :
      (more : ℕ) (g : Generator) (draws : List Draws)
      → length draws + more ≤ most_rounds
      → HaveRoom more draws
      → IsReady codec (length draws + more) g
      → Returns (IsRun codec more g (length draws)) (run codec settings as_of g draws)
  unfolding run
  run-IsRun more g [] few drawn r =
      let none_left : 0 + more ≡ more = omega arith in
      record { counted = refl; judged = tt; ready = rw none_left at r; grows = λ k. omega arith }
  run-IsRun more g (d ∷ ds) few drawn r =
      Returns-bind (IsStep codec (length ds + more) g) (IsRun codec more g (suc (length ds)))
        (step codec settings as_of g d) _
        (step-IsStep codec settings as_of (length ds + more) g d
          (let shift : suc (length ds) + more ≡ suc (length ds + more) = omega arith in
            rw shift at r)
          late early (omega arith) drawn.0)
        λ first s.
          Returns-bind (IsRun codec more first.1 (length ds)) (IsRun codec more g (suc (length ds)))
            (run codec settings as_of first.1 ds) _
            (run-IsRun more first.1 ds (omega arith) drawn.1 s.ready)
            λ rest t. record {
              counted = ap suc t.counted;
              judged = (
                rw s.event_lem (
                    generated-IsJudged codec (is_late s.kind) s.emission.event s.fault
                      s.fault_codes),
                t.judged,
              );
              ready = t.ready;
              grows = λ k. omega (arith, s.grows k, t.grows k);
            }

  -- From a book whose entries each stand once, under their own allocated identifier, valid and
  -- readable, on a day between the 31st of the calendar and the last that has room for every tenor,
  -- and if the numbers, the business times and the notionals held and drawn have room for the rounds
  -- asked for and `more` behind them, `generate` raises nothing, for any rates and any other draws:
  -- it yields one event for each round asked for, every event is accepted or rejected on
  -- stated grounds, no version in the book falls, and the pools it ends with are exactly the trades
  -- that can be amended and resent, with room for `more` rounds.
  pub generate-IsRun :
      (more : ℕ) (book : TradeBook) (draws : List Draws)
      → length draws + more ≤ most_rounds
      → book.next_sequence + (length draws + more) ≤ 1000000000
      → HaveRoom more draws
      → IsStored codec (length draws + more) book.next_sequence book.trades
      → Returns
          (IsRun codec more (begin book) (length draws))
          (generate codec settings as_of book draws)
  unfolding generate
  generate-IsRun more book draws few numbered drawn s =
      run-IsRun more (begin book) draws few drawn
        (begin-IsReady codec (length draws + more) book numbered s)
