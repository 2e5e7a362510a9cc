-- ===== src/Arbitration/Positions.antt =====
-- Events by their positions in a batch, for `_settle_version_arbitration` in
-- ingestion/src/trade_sim/generator.py.
use snowflake_trade_pipeline.Prelude.{
  ℕ, ◌+◌, ◌≤◌, ◌<◌, ◌≡◌, refl, Bool, true, false, ◌||◌, List, [], ◌∷◌, some, arith, ◌==◌, nat_eq,
  All, get_elem?,
}
use snowflake_trade_pipeline.Schema.{GeneratedEvent}
use snowflake_trade_pipeline.Arbitration.{Placed, last_or}

-- The event at position `i` is among those listed.
unfoldable pub at_index : List Placed → ℕ → Bool
at_index [] i = false
at_index (x ∷ xs) i = x.0 == i || at_index xs i

-- An event and its place in the file.
abbrev pub IsAt : List GeneratedEvent → Placed → Type 0
IsAt events y = get_elem? events y.0 ≡ some y.1

-- The positions increase from `n` on, as those of a file do.
abbrev pub IsIncreasing : ℕ → List Placed → Type 0
IsIncreasing n [] = Unit
IsIncreasing n (x ∷ xs) = (n ≤ x.0) × IsIncreasing (x.0 + 1) xs

pub IsIncreasing-weaken :
    (m n : ℕ) (xs : List Placed) → m ≤ n → IsIncreasing n xs → IsIncreasing m xs
IsIncreasing-weaken m n [] h s = tt
IsIncreasing-weaken m n (x ∷ xs) h s = (omega arith, s.1)

pub All-behind : (n : ℕ) (xs : List Placed) → IsIncreasing n xs → All (λ y. n ≤ y.0) xs
All-behind n [] s = tt
All-behind n (x ∷ xs) s =
    (s.0, All-behind n xs (IsIncreasing-weaken n (x.0 + 1) xs (omega arith) s.1))

pub All-last {κ} :
    (P : Placed → Type κ) (x : Placed) (xs : List Placed) → All P (x ∷ xs) → P (last_or x xs)
unfolding last_or
All-last P x [] h = h.0
All-last P x (y ∷ ys) h = All-last P y ys h.1

pub at_index-last : (x : Placed) (xs : List Placed) → at_index (x ∷ xs) (last_or x xs).0 ≡ true
unfolding at_index last_or
at_index-last x [] = ground arith
at_index-last x (y ∷ ys) = ground (arith, at_index-last y ys)

-- No position stands twice.
abbrev pub IsNodup : List Placed → Type 0
IsNodup [] = Unit
IsNodup (x ∷ xs) = (at_index xs x.0 ≡ false) × IsNodup xs

pub at_index-behind :
    (n i : ℕ) (xs : List Placed) → IsIncreasing n xs → i < n → at_index xs i ≡ false
unfolding at_index
at_index-behind n i [] s h = refl
at_index-behind n i (x ∷ xs) s h = ground (arith, at_index-behind (x.0 + 1) i xs s.1)
