-- ===== src/Arbitration/Latest.antt =====
-- One race of `_settle_version_arbitration` in ingestion/src/trade_sim/generator.py: sorting the
-- competitors by business time leaves at the end the one that no other beats.
use snowflake_trade_pipeline.Arbitration.Positions.{
  at_index, IsAt, IsIncreasing, All-last, at_index-last, IsNodup,
}
use snowflake_trade_pipeline.Prelude.{
  ℕ, ◌≡◌, ◌≢◌, refl, sym, ap, ◌∙◌, ◌⊎◌, inl, inr, true, false, not, ◌&&◌, List, [], ◌∷◌, arith,
  ◌==◌, nat_eq, All, All-weaken, All-combine, Bool-cases,
}
use mathlib.Core.Path.{subst}
use snowflake_trade_pipeline.Schema.{GeneratedEvent}
use snowflake_trade_pipeline.Schema.Codecs.{Codec}
use snowflake_trade_pipeline.Arbitration.{Placed, sort, all_but_last, last_or}
use snowflake_trade_pipeline.Arbitration.Ranking.{
  beats, is_beaten, IsRanked, All-sort, All-of_sort, at_index-sort, sort-IsNodup, sort-IsRanked,
}

module _ (codec : Codec) where
  -- In a ranked list the last beats every other.
  abbrev IsAtMost : Placed → Placed → Type 0
  IsAtMost w y = (y ≡ w) ⊎ (beats codec w y ≡ true)

  last_beats :
      (x : Placed) (xs : List Placed)
      → IsRanked codec (x ∷ xs)
      → All (IsAtMost (last_or x xs)) (x ∷ xs)
  unfolding last_or
  last_beats x [] r = (inl refl, tt)
  last_beats x (y ∷ ys) r =
      let rest = last_beats y ys r.1 in
      (inr (All-last (λ z. beats codec z x ≡ true) y ys r.0), rest)

  -- The sorted race is never empty, and its last is the last of the sorted list.
  pub all_but_last-at :
      (x : Placed) (xs : List Placed) (i : ℕ)
      → IsNodup (x ∷ xs)
      → at_index (all_but_last (x ∷ xs)) i ≡ (at_index (x ∷ xs) i && not ((last_or x xs).0 == i))
  unfolding at_index all_but_last last_or
  all_but_last-at x [] i h = ground arith
  all_but_last-at x (y ∷ ys) i h = ground (arith, all_but_last-at y ys i h.1, at_index-last y ys)

  is_beaten-false :
      (x : Placed) (xs : List Placed)
      → is_beaten codec x xs ≡ false
      → All (λ y. beats codec y x ≡ false) xs
  unfolding is_beaten
  is_beaten-false x [] h = tt
  is_beaten-false x (y ∷ ys) h = (ground arith, is_beaten-false x ys (ground arith))

  is_beaten-none :
      (x : Placed) (xs : List Placed)
      → All (λ y. beats codec y x ≡ false) xs
      → is_beaten codec x xs ≡ false
  unfolding is_beaten
  is_beaten-none x [] h = refl
  is_beaten-none x (y ∷ ys) h = ground (arith, h.0, is_beaten-none x ys h.1)

  All-at {κ} :
      (P : Placed → Type κ) (xs : List Placed) (i : ℕ)
      → All P xs
      → at_index xs i ≡ true
      → (y : Placed) × (y.0 ≡ i) × P y
  unfolding at_index
  All-at P [] i h a = absurd (ground arith)
  All-at P (x ∷ xs) i h a = elim (Bool-cases (x.0 == i)) [
    | inl c ↦ (x, ground arith, h.0)
    | inr c ↦ All-at P xs i h.1 (ground arith)
  ]

  beats_irrefl : (x : Placed) → beats codec x x ≡ false
  unfolding beats
  beats_irrefl x = ground arith

  beats_asym : (x y : Placed) → beats codec x y ≡ true → beats codec y x ≡ false
  unfolding beats
  beats_asym x y h = ground arith

  module _ (events : List GeneratedEvent) where
    pub same_place : (x y : Placed) → IsAt events x → IsAt events y → x.0 ≡ y.0 → x ≡ y
    same_place (i, e) (j, f) p q h = let same : e ≡ f = cc in ground arith

    winner_loses_not :
        (x w : Placed) (xs : List Placed)
        → All (IsAtMost w) xs
        → x ≡ w
        → is_beaten codec x xs ≡ false
    winner_loses_not x w xs h same = is_beaten-none x xs (
        All-weaken (IsAtMost w) (λ y. beats codec y x ≡ false) xs
          (λ y m. elim m [
            | inl e ↦ rw (e, same) (beats_irrefl w)
            | inr b ↦ rw same (beats_asym w y b)
          ])
          h)

    loser_is_beaten :
        (x w : Placed) (xs : List Placed)
        → IsAtMost w x
        → w.0 ≢ x.0
        → (All (λ y. beats codec y x ≡ false) xs → beats codec w x ≡ false)
        → is_beaten codec x xs ≡ true
    loser_is_beaten x w xs m apart last = elim (Bool-cases (is_beaten codec x xs)) [
      | inl c ↦ c
      | inr c ↦ elim m [
        | inl e ↦ absurd (apart (ap (λ (y : Placed). y.0) (sym e)))
        | inr b ↦ absurd (ground (arith, last (is_beaten-false x xs c)))
      ]
    ]

    ranked_race :
        (s xs : List Placed) (x : Placed)
        → IsAt events x
        → All (IsAt events) xs
        → IsNodup s
        → IsRanked codec s
        → s ≡ sort codec xs
        → at_index xs x.0 ≡ true
        → at_index (all_but_last s) x.0 ≡ is_beaten codec x xs
    ranked_race [] xs x p ps nodup ranked e a =
        absurd (
          unfold at_index in ground (arith, at_index-sort codec xs x.0, ap (λ t. at_index t x.0) e))
    ranked_race (t ∷ ts) xs x p ps nodup ranked e a =
        let w = last_or t ts in
        let at_s : at_index (t ∷ ts) x.0 ≡ true =
          ap (λ l. at_index l x.0) e ∙ at_index-sort codec xs x.0 ∙ a in
        let most : All (IsAtMost w) xs =
          All-of_sort codec (IsAtMost w) xs
            (subst (λ l. All (IsAtMost w) l) e (last_beats t ts ranked)) in
        let placed : IsAt events w =
          All-last (IsAt events) t ts
            (subst (λ l. All (IsAt events) l) (sym e) (All-sort codec (IsAt events) xs ps)) in
        let (y, same_index, (q, m)) =
          All-at (λ y. IsAt events y × IsAtMost w y) xs x.0
            (All-combine (IsAt events) (IsAtMost w) (λ y. IsAt events y × IsAtMost w y) xs
              (λ y q m. (q, m)) ps most)
            a in
        let here : y ≡ x = same_place y x q p same_index in
        elim (Bool-cases (w.0 == x.0)) [
          | inl c ↦ ground (
            arith,
            all_but_last-at t ts x.0 nodup,
            winner_loses_not x w xs most (same_place x w p placed (ground arith)),
          )
          | inr c ↦ ground (
            arith,
            all_but_last-at t ts x.0 nodup,
            loser_is_beaten x w xs (rw here at m) (ground arith) (λ h.
                All-last (λ y. beats codec y x ≡ false) t ts
                  (subst (λ l. All (λ y. beats codec y x ≡ false) l) (sym e)
                    (All-sort codec (λ y. beats codec y x ≡ false) xs h))),
          )
        ]

    -- Of the competitors of a race those that some other one beats are superseded, and they alone.
    pub race_lem :
        (n : ℕ) (xs : List Placed) (x : Placed)
        → IsIncreasing n xs
        → All (IsAt events) xs
        → IsAt events x
        → at_index xs x.0 ≡ true
        → at_index (all_but_last (sort codec xs)) x.0 ≡ is_beaten codec x xs
    race_lem n xs x s ps p a =
        ranked_race (sort codec xs) xs x p ps (sort-IsNodup codec n xs s)
          (sort-IsRanked codec n xs s) refl a
