-- ===== src/Generator/Settling.antt =====
-- What `generate` in ingestion/src/trade_sim/generator.py does with the book and the pools once
-- an event is out, whichever branch of the round it came from.
use snowflake_trade_pipeline.Prelude.{
  ℕ, ◌≤◌, String, ◌≡◌, refl, ◌∙◌, Bool, true, false, ◌&&◌, Option, none, ltb, string_eq, ◌==◌,
  eq_iff, arith, nat_eq, Bool-cases, inl, inr,
}
use snowflake_trade_pipeline.Result.{Result, ok, err, Returns, Returns-both, Returns-weaken, ◌>>=◌}
use snowflake_trade_pipeline.Schema.{TradeEvent, TradeAction, new, amend, cancel}
use snowflake_trade_pipeline.Schema.Codecs.{Codec}
use snowflake_trade_pipeline.Book.{TradeBook, entry_of, record_entry}
use snowflake_trade_pipeline.Book.Identity.{IsMinted}
use snowflake_trade_pipeline.Generator.Faults.{Corrupt}
use snowflake_trade_pipeline.Generator.Run.{
  Generator, Emission, known_version, is_accepted, advance_clock, apply_to_book, update_pools,
  settle_book,
}
use snowflake_trade_pipeline.Generator.Pools.{is_live, IsReady}
use snowflake_trade_pipeline.Generator.Pools.Refresh.{
  IsRefresh, IsRefresh-trans, advance_clock-IsRefresh, refresh-IsReady,
}
use snowflake_trade_pipeline.Generator.Pools.Update.{
  update_pools-new, update_pools-amend, update_pools-cancel, known_version-apply,
}
use snowflake_trade_pipeline.Generator.Kinds.{Kind, stale, replaced, amended, booked, IsEmission}

-- The stale branch was taken.
abbrev pub is_late : {g : Generator} {e : Emission} → Kind g e → Bool
is_late (stale _ _ _) = true
is_late (replaced _ _ _) = false
is_late (amended _ _ _ _) = false
is_late (booked _ _ _ _) = false

pub record IsSettled (codec : Codec) (n : ℕ) (g : Generator) (e : Emission) (late : Bool)
    (g' : Generator) : Type 0 where
  pub ready : IsReady codec n g'
  pub grows : (k : String) → known_version g.book k ≤ known_version g'.book k
  pub lateness : ltb e.event.trade_version (known_version g'.book e.event.trade_id) ≡ late

next_sequence-advance_clock :
    (codec : Codec) (book : TradeBook) (event : TradeEvent)
    → (advance_clock codec book event).next_sequence ≡ book.next_sequence
unfolding advance_clock record_entry
next_sequence-advance_clock codec book event = ground arith

unknown_version :
    (book : TradeBook) (k : String) → entry_of book k ≡ none → known_version book k ≡ 0
unfolding known_version
unknown_version book k h = rw (h, known_version)

unknown_dead : (book : TradeBook) (k : String) → entry_of book k ≡ none → is_live book k ≡ false
unfolding is_live
unknown_dead book k h = rw (h, is_live)

Returns-then-ok :
    {A B : Type 0} (P Q : B → Type 0) (m : Result A) (f : A → B)
    → ((a : A) → Q (f a))
    → Returns P (m >>= λ a. ok (f a))
    → Returns Q (m >>= λ a. ok (f a))
Returns-then-ok P Q (ok a) f k h = k a
Returns-then-ok P Q (err e) f k h = h

update_pools-book :
    (codec : Codec) (n : ℕ) (g : Generator) (event : TradeEvent) (action : TradeAction)
    → Returns (IsReady codec n) (update_pools codec g event action)
    → Returns (λ g'. g'.book ≡ g.book) (update_pools codec g event action)
unfolding update_pools
update_pools-book codec n g event new h = refl
update_pools-book codec n g event amend h = elim (Bool-cases (event.trade_version == 2)) [
  | inl c ↦ rw c refl
  | inr c ↦ rw c refl
]
update_pools-book codec n g event cancel h =
    Returns-then-ok (IsReady codec n) (λ g'. g'.book ≡ g.book) _ _ (λ _. refl) h

module _ (codec : Codec) (n : ℕ) (g : Generator) (e : Emission) (r : IsReady codec n g)
    (i : IsEmission codec n g e) where
  clocked : TradeBook
  clocked = advance_clock codec e.book e.event

  clocked-IsRefresh : IsRefresh codec n g.book clocked
  unfolding clocked
  clocked-IsRefresh =
      IsRefresh-trans codec i.refreshed
        (advance_clock-IsRefresh codec e.book e.event i.kept.clocked i.refreshed.good)

  -- The book is left alone but for its clock.
  IsSettled-untaken :
      IsSettled codec n g e
        (ltb e.event.trade_version (known_version clocked e.event.trade_id))
        (record g { book = clocked })
  IsSettled-untaken = record {
    ready = refresh-IsReady codec g clocked r clocked-IsRefresh;
    grows = λ k. omega (arith, clocked-IsRefresh.same_version k);
    lateness = refl;
  }

  untaken_late :
      (k : Kind g e)
      → ltb e.event.trade_version (known_version clocked e.event.trade_id) ≡ is_late k
  untaken_late (stale _ _ v) = ground (arith, clocked-IsRefresh.same_version e.event.trade_id)
  untaken_late (replaced _ _ v) = ground (arith, clocked-IsRefresh.same_version e.event.trade_id)
  untaken_late (amended _ _ _ v) = ground (arith, clocked-IsRefresh.same_version e.event.trade_id)
  untaken_late (booked _ _ v absent) =
      unfold known_version in ground (arith, clocked-IsRefresh.same_version e.event.trade_id)

  abbrev applied : Generator
  applied = record g { book = apply_to_book codec clocked e.event }

  clocked-IsReady : IsReady codec n (record g { book = clocked })
  clocked-IsReady = refresh-IsReady codec g clocked r clocked-IsRefresh

  clocked-IsMinted : IsMinted clocked.next_sequence e.event.trade_id
  unfolding clocked
  clocked-IsMinted = rw (next_sequence-advance_clock codec e.book e.event) i.minted

  -- The book has taken an event at a version that is not below the one it held.
  IsSettled-taken :
      (a : TradeAction)
      → known_version g.book e.event.trade_id ≤ e.event.trade_version
      → Returns (IsReady codec n) (update_pools codec applied e.event a)
      → Returns (IsSettled codec n g e false) (update_pools codec applied e.event a)
  IsSettled-taken a above h =
      Returns-weaken _ (IsSettled codec n g e false) _
        (Returns-both (IsReady codec n) (λ g'. g'.book ≡ applied.book) _ h
          (update_pools-book codec n applied e.event a h))
        λ g' (ready, same). record {
          ready = ready;
          grows = λ k. rw same (
              ground (
                arith,
                known_version-apply codec clocked e.event k,
                clocked-IsRefresh.same_version k,
                eq_iff e.event.trade_id k,
              ));
          lateness = rw same (
              ground (
                arith,
                known_version-apply codec clocked e.event e.event.trade_id,
                eq_iff e.event.trade_id e.event.trade_id,
              ));
        }

  pools_taken :
      (a : TradeAction) (k : Kind g e)
      → e.event.action ≡ a
      → e.mutates_book ≡ true
      → Returns (IsSettled codec n g e (is_late k)) (update_pools codec applied e.event a)
  pools_taken a (stale kept _ _) acted m = cc
  pools_taken a (replaced kept _ _) acted m = cc
  pools_taken a (booked _ is_new version absent) acted m =
      let same : a ≡ new = cc in
      rw same (
        IsSettled-taken new (omega (arith, unknown_version g.book e.event.trade_id absent)) (
          update_pools-new codec n (record g { book = clocked }) e.event clocked-IsReady
            clocked-IsMinted i.kept is_new version
            (clocked-IsRefresh.same_live e.event.trade_id
              ∙ unknown_dead g.book e.event.trade_id absent)))
  pools_taken a (amended _ (inl is_amend) live version) acted m =
      let same : a ≡ amend = cc in
      rw same (
        IsSettled-taken amend (omega arith) (
          update_pools-amend codec n (record g { book = clocked }) e.event clocked-IsReady
            clocked-IsMinted i.kept is_amend
            (omega (arith, clocked-IsRefresh.same_version e.event.trade_id))
            (clocked-IsRefresh.same_live e.event.trade_id ∙ live)))
  pools_taken a (amended _ (inr is_cancel) live version) acted m =
      let same : a ≡ cancel = cc in
      rw same (
        IsSettled-taken cancel (omega arith) (
          update_pools-cancel codec n (record g { book = clocked }) e.event clocked-IsReady
            clocked-IsMinted i.kept is_cancel
            (clocked-IsRefresh.same_live e.event.trade_id ∙ live)))

  and_left : (a b : Bool) → (a && b) ≡ true → a ≡ true
  and_left true b h = refl
  and_left false b h = h

  -- The book and the pools after an emission, accepted or not.
  pub settle_book-IsSettled :
      (c : Option Corrupt)
      → Returns (IsSettled codec n g e (is_late i.kind)) (settle_book codec g e c)
  unfolding settle_book clocked
  settle_book-IsSettled c = elim (Bool-cases (e.mutates_book && is_accepted codec c)) [
    | inl taken ↦ rw taken (pools_taken e.event.action i.kind refl (and_left _ _ taken))
    | inr untaken ↦ rw untaken (rw (untaken_late i.kind) at IsSettled-untaken)
  ]
