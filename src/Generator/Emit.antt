-- ===== src/Generator/Emit.antt =====
-- The branch on `roll` in `generate` of ingestion/src/trade_sim/generator.py: every branch returns,
-- with an event whose version stands in a fixed relation to the version that the book holds.
use snowflake_trade_pipeline.Prelude.{
  is_empty, ℕ, suc, ◌<◌, ◌≤◌, ◌+◌, String, ◌≡◌, refl, sym, ◌∙◌, Bool, true, false, not, ◌&&◌, List,
  contains, string_eq, arith, Bool-cases, inl, inr,
}
use snowflake_trade_pipeline.Result.{Returns, Returns-bind}
use snowflake_trade_pipeline.Schema.{amend}
use snowflake_trade_pipeline.Schema.Codecs.{Codec}
use snowflake_trade_pipeline.Book.{record_entry}
use snowflake_trade_pipeline.Book.Identity.{allocate_fresh}
use snowflake_trade_pipeline.Generator.Draws.{Settings, Draws, happens, choice, choice-Returns}
use snowflake_trade_pipeline.Generator.Build.{
  build_new, build_amendment, build_replacement, build_stale,
}
use snowflake_trade_pipeline.Generator.Readable.{first_day, last_day, most_rounds, HasRoom}
use snowflake_trade_pipeline.Generator.Events.{
  IsBuiltFrom, IsStale, build_new-IsBooked, build_amendment-IsBuiltFrom,
  build_replacement-IsBuiltFrom, build_stale-IsStale,
}
use snowflake_trade_pipeline.Generator.Run.{
  Generator, known_version, picked, emit, emit_new, emit_stale, emit_replacement, emit_amendment,
  apply_replacement,
}
use snowflake_trade_pipeline.Generator.Pools.{is_live, IsReady, IsGood-weaken}
use snowflake_trade_pipeline.Generator.Pools.Refresh.{IsRefresh-refl, apply_replacement-IsRefresh}
use snowflake_trade_pipeline.Generator.Kinds.{
  stale, replaced, amended, booked, IsEmission, IsPicked, All-contains, length-is_empty, live_entry,
  known_version-held, allocate-IsRefresh, allocate-IsMinted, amended_action,
}

module _ (codec : Codec) (settings : Settings) (as_of : ℕ) (early : as_of ≤ last_day) (n : ℕ)
    (few : n < most_rounds) (g : Generator) (d : Draws) (drawn : HasRoom n d.fields.notional)
    (r : IsReady codec (suc n) g) where
  picked-Returns :
      (pool : List String)
      → is_empty pool ≡ false
      → ((k : String) → contains pool k ≡ true → is_live g.book k ≡ true)
      → Returns (IsPicked g.book pool) (picked codec settings as_of g.book pool d)
  unfolding picked
  picked-Returns pool full live =
      Returns-bind (λ k. contains pool k ≡ true) (IsPicked g.book pool) (choice pool d.pick) _
        (choice-Returns (λ k. contains pool k ≡ true) pool d.pick (All-contains pool)
          (length-is_empty pool full))
        λ k member.
          let (e, held) = live_entry g.book k (live k member) in
          rw held (record { trade_id = k; member = member; held = held })

  emit_new-Returns :
      first_day ≤ as_of → Returns (IsEmission codec n g) (emit_new codec settings as_of g d)
  unfolding emit_new
  emit_new-Returns late =
      Returns-bind _ (IsEmission codec n g) (build_new codec settings g.book as_of d) _
        (build_new-IsBooked codec settings n g.book as_of d late early few
          (omega (arith, r.good.numbered)) drawn)
        λ built (b, e). record {
          refreshed = rw e (allocate-IsRefresh codec n g.book r.good);
          minted = rw (e, b.minted) (allocate-IsMinted g.book);
          kept = b.kept;
          kind = booked refl b.acted b.versioned (rw b.minted (allocate_fresh g.book r.good.keyed));
        }

  emit_amendment-Returns :
      is_empty g.amendable_ids ≡ false
      → Returns (IsEmission codec n g) (emit_amendment codec settings as_of g d)
  unfolding emit_amendment
  emit_amendment-Returns full =
      Returns-bind (IsPicked g.book g.amendable_ids) (IsEmission codec n g) _ _
        (picked-Returns g.amendable_ids full (λ k h. sym (r.amendable_lem k) ∙ h))
        λ e p.
          Returns-bind _ (IsEmission codec n g)
            (build_amendment codec settings e as_of d (happens settings.cancel_rate d.cancel)) _
            (build_amendment-IsBuiltFrom codec settings n e as_of d
              (happens settings.cancel_rate d.cancel) early few drawn (r.good.readable _ e p.held))
            λ event b.
              let same : event.trade_id ≡ p.trade_id =
                b.same_trade ∙ r.good.keyed.keyed p.trade_id e p.held in
              record {
                refreshed = IsRefresh-refl codec g.book (IsGood-weaken codec n g.book r.good);
                minted = rw same (r.good.keyed.minted p.trade_id e p.held);
                kept = b.kept;
                kind =
                    amended refl (amended_action _ _ b.acted)
                      (rw same (sym (r.amendable_lem p.trade_id) ∙ p.member))
                      (rw same (cc (b.versioned, known_version-held g.book p.trade_id e p.held)));
              }

  resendable_live :
      (k : String)
      → contains g.resendable_ids k ≡ true
      → (is_live g.book k ≡ true) × (1 < known_version g.book k)
  resendable_live k h = ground (arith, r.resendable_lem k)

  emit_stale-Returns :
      is_empty g.resendable_ids ≡ false
      → Returns (IsEmission codec n g) (emit_stale codec settings as_of g d)
  unfolding emit_stale
  emit_stale-Returns full =
      Returns-bind (IsPicked g.book g.resendable_ids) (IsEmission codec n g) _ _
        (picked-Returns g.resendable_ids full (λ k h. (resendable_live k h).0))
        λ e p.
          let (live, later) = resendable_live p.trade_id p.member in
          let known = known_version-held g.book p.trade_id e p.held in
          Returns-bind (IsStale n e) (IsEmission codec n g) (build_stale codec settings e as_of d) _
            (build_stale-IsStale codec settings n e as_of d early few drawn
              (r.good.readable _ e p.held) (omega (arith, known, later)))
            λ event (v, b, low, high).
              let same : event.trade_id ≡ p.trade_id =
                b.same_trade ∙ r.good.keyed.keyed p.trade_id e p.held in
              record {
                refreshed = IsRefresh-refl codec g.book (IsGood-weaken codec n g.book r.good);
                minted = rw same (r.good.keyed.minted p.trade_id e p.held);
                kept = b.kept;
                kind = stale refl (rw same live) (rw same (omega (arith, b.versioned, known)));
              }

  emit_replacement-Returns :
      is_empty g.replaceable_ids ≡ false
      → Returns (IsEmission codec n g) (emit_replacement codec settings as_of g d)
  unfolding emit_replacement
  emit_replacement-Returns full =
      Returns-bind (IsPicked g.book g.replaceable_ids) (IsEmission codec n g) _ _
        (picked-Returns g.replaceable_ids full r.replaceable_live)
        λ e p.
          Returns-bind (IsBuiltFrom n e e.trade_version amend) (IsEmission codec n g)
            (build_replacement codec settings e as_of d) _
            (build_replacement-IsBuiltFrom codec settings n e as_of d early few drawn
              (r.good.readable _ e p.held))
            λ event b.
              let same : event.trade_id ≡ p.trade_id =
                b.same_trade ∙ r.good.keyed.keyed p.trade_id e p.held in
              let f =
                apply_replacement-IsRefresh codec g.book p.trade_id e event b.kept
                  (IsGood-weaken codec n g.book r.good) p.held in
              record {
                refreshed = f;
                minted = rw same (
                    unfold apply_replacement record_entry in
                    r.good.keyed.minted p.trade_id e p.held);
                kept = b.kept;
                kind =
                    replaced refl (rw same (r.replaceable_live p.trade_id p.member))
                      (rw same (cc (b.versioned, known_version-held g.book p.trade_id e p.held)));
              }

  and_not : (b c : Bool) → (not b && c) ≡ true → b ≡ false
  and_not true c h = sym h
  and_not false c h = refl

  -- Whatever is rolled, the branch that is taken returns.
  pub emit-Returns :
      first_day ≤ as_of → Returns (IsEmission codec n g) (emit codec settings as_of g d)
  unfolding emit
  emit-Returns late =
      let s = settings.stale_version_rate in
      elim (Bool-cases (not (is_empty g.resendable_ids) && happens s d.roll)) [
        | inl c ↦ rw c (emit_stale-Returns (and_not _ _ c))
        | inr n ↦
            rw n
              (elim (Bool-cases
                (not (is_empty g.replaceable_ids) && happens (s + settings.replace_rate) d.roll)) [
                  | inl c ↦ rw c (emit_replacement-Returns (and_not _ _ c))
                  | inr n' ↦
                      rw n'
                        (elim (Bool-cases (
                          not (is_empty g.amendable_ids)
                          && happens (s + settings.replace_rate + settings.amend_rate) d.roll)) [
                            | inl c ↦ rw c (emit_amendment-Returns (and_not _ _ c))
                            | inr n'' ↦ rw n'' (emit_new-Returns late)
                          ])
                ])
      ]
