-- ===== src/Arbitration/Winnings.antt =====
-- The winners that the races of `_settle_version_arbitration` in
-- ingestion/src/trade_sim/generator.py leave behind, by the time of their arrival.
use snowflake_trade_pipeline.Prelude.{
  ℕ, ◌<◌, String, ◌≡◌, refl, sym, ap, ◌∙◌, inl, inr, true, not, ◌&&◌, ◌||◌, List, [], ◌∷◌, ◌++◌,
  Option, some, arith, ltb, if◌then◌else◌, ◌==◌, ==_sound, ==_refl, nat_eq, string_eq, pair_eq, All,
  Bool-cases,
}
use mathlib.Core.List.{append_assoc, append-nil}
use snowflake_trade_pipeline.Prelude.Dict.{lookup, lookup-insert}
use snowflake_trade_pipeline.Schema.{GeneratedEvent}
use snowflake_trade_pipeline.Schema.Codecs.{Codec}
use snowflake_trade_pipeline.Arbitration.{
  Placed, Key, Winners, or_empty, add_winner, business_time, sort, last_or, run_race, run_races,
}
use snowflake_trade_pipeline.Arbitration.Groups.{Groups}
use snowflake_trade_pipeline.Arbitration.Staleness.{won_before}

winners-add_winner :
    (d : Winners) (j k : String) (x : ℕ × ℕ)
    → or_empty (lookup (add_winner d j x) k)
      ≡ (if j == k then or_empty (lookup d k) ++ x ∷ [] else or_empty (lookup d k))
unfolding add_winner
winners-add_winner d j k x = elim (Bool-cases (j == k)) [
  | inl c ↦
      let same : j ≡ k = ==_sound j k c in
      rw (lookup-insert d j k (or_empty (lookup d j) ++ x ∷ []), c, same) refl
  | inr c ↦ rw (lookup-insert d j k (or_empty (lookup d j) ++ x ∷ []), c) refl
]

module _ (codec : Codec) where
  abbrev pub winner : Placed → List Placed → Placed
  winner x xs = last_or x (sort codec (x ∷ xs))

  abbrev pub time_of : Placed → ℕ
  time_of x = business_time codec x.1

  -- The winners that the groups leave for a trade.
  unfoldable pub won : String → Groups → List (ℕ × ℕ)
  won t [] = []
  won t ((k, []) ∷ d) = won t d
  won t ((k, x ∷ xs) ∷ d) =
      let rest = won t d in if k.0 == t then (time_of (winner x xs), k.1) ∷ rest else rest

  pub won-run_races :
      (t : String) (d : Groups) (es : List GeneratedEvent) (w : Winners)
      → or_empty (lookup (run_races codec d (es, w)).1 t) ≡ or_empty (lookup w t) ++ won t d
  unfolding run_races run_race won
  won-run_races t [] es w = sym (append-nil (or_empty (lookup w t)))
  won-run_races t ((k, []) ∷ d) es w = won-run_races t d es w
  won-run_races t ((k, x ∷ xs) ∷ d) es w =
      let new : ℕ × ℕ = (time_of (winner x xs), k.1) in
      won-run_races t d _ (add_winner w k.0 new)
      ∙ ap (λ l. l ++ won t d) (winners-add_winner w k.0 t new)
      ∙ elim (Bool-cases (k.0 == t)) [
        | inl c ↦ rw c (append_assoc (or_empty (lookup w t)) (new ∷ []) (won t d))
        | inr c ↦ rw c refl
      ]

  pub won-All {κ} :
      (P : ℕ × ℕ → Type κ) (t : String) (v : ℕ) (d : Groups) (x : Placed) (xs : List Placed)
      → lookup d (t, v) ≡ some (x ∷ xs)
      → All P (won t d)
      → P (time_of (winner x xs), v)
  unfolding won lookup
  won-All P t v [] x xs h all = absurd cc
  won-All P t v ((k, []) ∷ d) x xs h all = elim (Bool-cases (k == (t, v))) [
    | inl c ↦
        absurd (let e : ◌≡◌ {A = Option (List Placed)} (some []) (some (x ∷ xs)) = rw c at h in cc)
    | inr c ↦ let e : lookup d (t, v) ≡ some (x ∷ xs) = rw c at h in won-All P t v d x xs e all
  ]
  won-All P t v ((k, y ∷ ys) ∷ d) x xs h all = elim (Bool-cases (k == (t, v))) [
    | inl c ↦
        let e : some (y ∷ ys) ≡ some (x ∷ xs) = rw c at h in
        let same : k ≡ (t, v) = ==_sound k (t, v) c in
        let all_here : All P ((time_of (winner y ys), v) ∷ won t d) = rw (same, ==_refl t) at all in
        let same_x : y ≡ x = cc in let same_xs : ys ≡ xs = cc in rw (same_x, same_xs) at all_here.0
    | inr c ↦
        let e : lookup d (t, v) ≡ some (x ∷ xs) = rw c at h in
        elim (Bool-cases (k.0 == t)) [
          | inl s ↦
              let later : All P ((time_of (winner y ys), k.1) ∷ won t d) = rw s at all in
              won-All P t v d x xs e later.1
          | inr s ↦ let later : All P (won t d) = rw s at all in won-All P t v d x xs e later
        ]
  ]

  -- A version that won before the arrival comes from a group of the trade.
  pub record IsWonBy (Q : Key × List Placed → Type 0) (t : String) (arrived_at m : ℕ) : Type 0 where
    pub first : Placed
    pub others : List Placed
    pub grouped : Q ((t, m), first ∷ others)
    pub earlier : time_of (winner first others) < arrived_at

  pub won-IsWonBy :
      (Q : Key × List Placed → Type 0) (t : String) (arrived_at m : ℕ) (d : Groups)
      → All Q d
      → won_before arrived_at m (won t d) ≡ true
      → IsWonBy Q t arrived_at m
  unfolding won won_before
  won-IsWonBy Q t a m [] all h = absurd (ground (arith, h))
  won-IsWonBy Q t a m ((k, []) ∷ d) all h = won-IsWonBy Q t a m d all.1 h
  won-IsWonBy Q t a m ((k, x ∷ xs) ∷ d) all h = elim (Bool-cases (k.0 == t)) [
    | inr c ↦
        let later : won_before a m (won t d) ≡ true = rw c at h in won-IsWonBy Q t a m d all.1 later
    | inl c ↦
        let here : ((ltb (time_of (winner x xs)) a && not (ltb k.1 m || ltb m k.1))
              || won_before a m (won t d))
            ≡ true =
          rw c at h in
        elim (Bool-cases (ltb (time_of (winner x xs)) a && not (ltb k.1 m || ltb m k.1))) [
          | inl e ↦
              let trade : k.0 ≡ t = ==_sound k.0 t c in
              let version : k.1 ≡ m = ground (arith, e) in
              record {
                first = x;
                others = xs;
                grouped = rw (trade, version) at all.0;
                earlier = ground (arith, e);
              }
          | inr e ↦ won-IsWonBy Q t a m d all.1 (ground (arith, e, here))
        ]
  ]
