-- ===== src/Reconcile/Claims.antt =====
-- `_claim_row` of ingestion/src/trade_sim/reconcile.py: what it takes from the pool of rows.
use mathlib.Core.List.Perm
use mathlib.Core.List.{Perm}
use snowflake_trade_pipeline.Prelude.{
  String, ◌≡◌, refl, inl, inr, Bool, true, false, ◌&&◌, ◌||◌, List, [], ◌∷◌, Option, none, some,
  arith, Bool-cases, string_eq,
}
use snowflake_trade_pipeline.Schema.{ExpectedVerdict}
use snowflake_trade_pipeline.Reconcile.{
  Row, pop_first, pop_any, or_else, claim_row, has_verdict, has_codes,
}

-- Some row passes the test.
unfoldable pub any : (Row → Bool) → List Row → Bool
any p [] = false
any p (r ∷ rs) = p r || any p rs

-- A row that passes the test was taken, and the others are left; or no row passes it.
abbrev IsPopped : (Row → Bool) → List Row → Option (Row × List Row) → Type 0
IsPopped p rows none = any p rows ≡ false
IsPopped p rows (some (r, rest)) = (p r ≡ true) × (any p rows ≡ true) × Perm (r ∷ rest) rows

IsPopped-later :
    (p : Row → Bool) (r : Row) (rs : List Row) (o : Option (Row × List Row))
    → p r ≡ false
    → IsPopped p rs o
    → IsPopped p (r ∷ rs) (elim o [ none ↦ none | some t ↦ some (t.0, r ∷ t.1) ])
unfolding any
IsPopped-later p r rs none e h = ground (arith, e, h)
IsPopped-later p r rs (some (s, rest)) e (h, a, perm) =
    (h, ground (arith, a), Perm.trans (Perm.swap r s rest) (Perm.cons r perm))

pop_first-IsPopped : (p : Row → Bool) (rows : List Row) → IsPopped p rows (pop_first p rows)
unfolding pop_first any
pop_first-IsPopped p [] = refl
pop_first-IsPopped p (r ∷ rs) = elim (Bool-cases (p r)) [
  | inl e ↦ rw e (e, ground (arith, e), Perm.rfl)
  | inr e ↦ rw e (IsPopped-later p r rs (pop_first p rs) e (pop_first-IsPopped p rs))
]

module _ (json_codes : String → List String) where
  -- The row answers the expectation in full.
  unfoldable pub is_answer : ExpectedVerdict → Row → Bool
  is_answer x r = has_verdict json_codes x r && has_codes json_codes x r

  -- What a claim does with the pool, the row taken and the rows left.
  pub record IsClaim (rows : List Row) (x : ExpectedVerdict) (r : Row) (rest : List Row)
      : Type 0 where
    pub only_one : Perm (r ∷ rest) rows
    pub in_full : any (is_answer x) rows ≡ true → is_answer x r ≡ true
    pub in_verdict : any (has_verdict json_codes x) rows ≡ true → has_verdict json_codes x r ≡ true

  -- A claim comes to nothing for an empty pool only.
  abbrev pub IsClaimed : List Row → ExpectedVerdict → Option (Row × List Row) → Type 0
  IsClaimed rows x none = rows ≡ []
  IsClaimed rows x (some (r, rest)) = IsClaim rows x r rest

  any-full :
      (x : ExpectedVerdict) (rows : List Row)
      → any (has_verdict json_codes x) rows ≡ false
      → any (is_answer x) rows ≡ false
  unfolding any is_answer
  any-full x [] h = refl
  any-full x (r ∷ rs) h = ground (arith, any-full x rs)

  pop_any-IsClaimed :
      (x : ExpectedVerdict) (rows : List Row)
      → any (has_verdict json_codes x) rows ≡ false
      → IsClaimed rows x (pop_any rows)
  pop_any-IsClaimed x [] h = refl
  pop_any-IsClaimed x (r ∷ rs) h = record {
    only_one = Perm.rfl;
    in_full = λ a. absurd (ground (arith, h, a, any-full x (r ∷ rs)));
    in_verdict = λ a. absurd (ground (arith, h, a));
  }

  in_verdict-IsClaimed :
      (x : ExpectedVerdict) (rows : List Row) (o : Option (Row × List Row))
      → any (is_answer x) rows ≡ false
      → IsPopped (has_verdict json_codes x) rows o
      → IsClaimed rows x (or_else o (pop_any rows))
  in_verdict-IsClaimed x rows none f h = pop_any-IsClaimed x rows h
  in_verdict-IsClaimed x rows (some (r, rest)) f (v, a, perm) = record {
    only_one = perm;
    in_full = λ b. absurd (ground (arith, f, b));
    in_verdict = λ b. v;
  }

  in_full-IsClaimed :
      (x : ExpectedVerdict) (rows : List Row) (o : Option (Row × List Row))
      → IsPopped (is_answer x) rows o
      → IsClaimed rows x
          (or_else o (or_else (pop_first (has_verdict json_codes x) rows) (pop_any rows)))
  in_full-IsClaimed x rows none h =
      in_verdict-IsClaimed x rows (pop_first (has_verdict json_codes x) rows) h
        (pop_first-IsPopped (has_verdict json_codes x) rows)
  in_full-IsClaimed x rows (some (r, rest)) (v, a, perm) = record {
    only_one = perm;
    in_full = λ b. v;
    in_verdict = λ b. unfold is_answer in ground (arith, v);
  }

  -- A claim takes one row out of the pool and leaves the others, and comes to nothing only if the
  -- pool is empty. If some row of the pool has the verdict and the rule codes expected, the row
  -- taken has them; and if some row has the verdict, the row taken has it.
  pub claim_row-IsClaimed :
      (rows : List Row) (x : ExpectedVerdict) → IsClaimed rows x (claim_row json_codes rows x)
  unfolding claim_row is_answer
  claim_row-IsClaimed rows x =
      in_full-IsClaimed x rows (pop_first (is_answer x) rows)
        (pop_first-IsPopped (is_answer x) rows)
