-- ===== src/Arbitration/Ranking.antt =====
-- The order of one race of `_settle_version_arbitration` in ingestion/src/trade_sim/generator.py:
-- competitors sorted by business time, the later one in the file behind on a tie.
use snowflake_trade_pipeline.Arbitration.Positions.{
  at_index, IsIncreasing, All-behind, IsNodup, at_index-behind,
}
use snowflake_trade_pipeline.Prelude.{
  ℕ, ◌+◌, ◌≤◌, ◌<◌, ◌≡◌, refl, ◌∙◌, inl, inr, Bool, true, false, ◌&&◌, ◌||◌, List, [], ◌∷◌, arith,
  ltb, ◌==◌, nat_eq, All, All-weaken, All-combine, Bool-cases,
}
use snowflake_trade_pipeline.Schema.Codecs.{Codec}
use snowflake_trade_pipeline.Arbitration.{Placed, business_time, sort_in, sort}

module _ (codec : Codec) where
  -- `y` is later than `x` in business time, or as late and behind it in the file.
  unfoldable pub beats : Placed → Placed → Bool
  beats y x =
      ltb (business_time codec x.1) (business_time codec y.1)
      || (business_time codec x.1 == business_time codec y.1 && ltb x.0 y.0)

  unfoldable pub is_beaten : Placed → List Placed → Bool
  is_beaten x [] = false
  is_beaten x (y ∷ ys) = beats y x || is_beaten x ys

  abbrev pub IsRanked : List Placed → Type 0
  IsRanked [] = Unit
  IsRanked (x ∷ xs) = All (λ y. beats y x ≡ true) xs × IsRanked xs

  module _ {κ} (P : Placed → Type κ) where
    All-sort_in : (x : Placed) (ys : List Placed) → P x → All P ys → All P (sort_in codec x ys)
    unfolding sort_in
    All-sort_in x [] p h = (p, tt)
    All-sort_in x (y ∷ ys) p h =
        elim (Bool-cases (ltb (business_time codec y.1) (business_time codec x.1))) [
          | inl c ↦ rw c (h.0, All-sort_in x ys p h.1)
          | inr c ↦ rw c (p, h)
        ]

    All-of_sort_in : (x : Placed) (ys : List Placed) → All P (sort_in codec x ys) → P x × All P ys
    unfolding sort_in
    All-of_sort_in x [] h = (h.0, tt)
    All-of_sort_in x (y ∷ ys) h =
        elim (Bool-cases (ltb (business_time codec y.1) (business_time codec x.1))) [
          | inl c ↦
              let k : All P (y ∷ sort_in codec x ys) = rw c at h in
              let (p, q) = All-of_sort_in x ys k.1 in (p, (k.0, q))
          | inr c ↦ let k : All P (x ∷ (y ∷ ys)) = rw c at h in k
        ]

    pub All-sort : (xs : List Placed) → All P xs → All P (sort codec xs)
    unfolding sort
    All-sort [] h = tt
    All-sort (x ∷ xs) h = All-sort_in x (sort codec xs) h.0 (All-sort xs h.1)

    pub All-of_sort : (xs : List Placed) → All P (sort codec xs) → All P xs
    unfolding sort
    All-of_sort [] h = tt
    All-of_sort (x ∷ xs) h =
        let (p, q) = All-of_sort_in x (sort codec xs) h in (p, All-of_sort xs q)

  beats_trans :
      (x y z : Placed)
      → ltb (business_time codec y.1) (business_time codec x.1) ≡ false
      → beats z y ≡ true
      → x.0 < z.0
      → beats z x ≡ true
  unfolding beats
  beats_trans x y z c p q = ground arith

  sort_in-IsRanked :
      (x : Placed) (ys : List Placed)
      → All (λ y. x.0 < y.0) ys
      → IsRanked ys
      → IsRanked (sort_in codec x ys)
  unfolding sort_in
  sort_in-IsRanked x [] b r = (tt, tt)
  sort_in-IsRanked x (y ∷ ys) b r =
      elim (Bool-cases (ltb (business_time codec y.1) (business_time codec x.1))) [
        | inl c ↦ rw c (
          All-sort_in (λ z. beats z y ≡ true) x ys (unfold beats in ground arith) r.0,
          sort_in-IsRanked x ys b.1 r.1,
        )
        | inr c ↦ rw c (
          (
            unfold beats in ground (arith, b.0),
            All-combine (λ z. beats z y ≡ true) (λ z. x.0 < z.0) (λ z. beats z x ≡ true) ys
                (λ z p q. beats_trans x y z c p q) r.0 b.1,
          ),
          r,
        )
      ]

  at_index-sort_in :
      (x : Placed) (ys : List Placed) (i : ℕ)
      → at_index (sort_in codec x ys) i ≡ (x.0 == i || at_index ys i)
  unfolding at_index sort_in
  at_index-sort_in x [] i = refl
  at_index-sort_in x (y ∷ ys) i = ground (arith, at_index-sort_in x ys i)

  pub at_index-sort : (xs : List Placed) (i : ℕ) → at_index (sort codec xs) i ≡ at_index xs i
  unfolding at_index sort
  at_index-sort [] i = refl
  at_index-sort (x ∷ xs) i =
      ground (arith, at_index-sort_in x (sort codec xs) i, at_index-sort xs i)

  sort_in-IsNodup :
      (x : Placed) (ys : List Placed)
      → at_index ys x.0 ≡ false
      → IsNodup ys
      → IsNodup (sort_in codec x ys)
  unfolding sort_in
  sort_in-IsNodup x [] a h = (a, tt)
  sort_in-IsNodup x (y ∷ ys) a h =
      elim (Bool-cases (ltb (business_time codec y.1) (business_time codec x.1))) [
        | inl c ↦ rw c (
          unfold at_index in ground (arith, at_index-sort_in x ys y.0, h.0),
          sort_in-IsNodup x ys (unfold at_index in ground arith) h.1,
        )
        | inr c ↦ rw c (a, h)
      ]

  pub sort-IsNodup : (n : ℕ) (xs : List Placed) → IsIncreasing n xs → IsNodup (sort codec xs)
  unfolding sort
  sort-IsNodup n [] s = tt
  sort-IsNodup n (x ∷ xs) s =
      sort_in-IsNodup x (sort codec xs)
        (at_index-sort xs x.0 ∙ at_index-behind (x.0 + 1) x.0 xs s.1 (omega arith))
        (sort-IsNodup (x.0 + 1) xs s.1)

  pub sort-IsRanked : (n : ℕ) (xs : List Placed) → IsIncreasing n xs → IsRanked (sort codec xs)
  unfolding sort
  sort-IsRanked n [] s = tt
  sort-IsRanked n (x ∷ xs) s =
      sort_in-IsRanked x (sort codec xs)
        (All-sort (λ y. x.0 < y.0) xs
          (All-weaken (λ y. x.0 + 1 ≤ y.0) (λ y. x.0 < y.0) xs (λ y h. omega arith)
            (All-behind (x.0 + 1) xs s.1)))
        (sort-IsRanked (x.0 + 1) xs s.1)
