-- ===== src/Generator/Fresh.antt =====
-- The fields of a fresh trade of ingestion/src/trade_sim/generator.py: they are drawn without an
-- error on a day that leaves room for every tenor, and their currencies are valid.
use snowflake_trade_pipeline.Prelude.{
  Bool, true, ◌&&◌, leb, max, ℕ, ◌<◌, ◌≤◌, ◌≡◌, refl, List, [], ◌∷◌, arith, All, keep, length,
  string_eq, Bool-cases, inl, inr, contains,
}
use snowflake_trade_pipeline.Result.{Result, ok, ◌>>=◌, Returns, Returns-bind, Returns-value}
use snowflake_trade_pipeline.Reference.{
  currency_codes, deliverable_currency_codes, Product, Book, books, products, product_pool,
  book_by_id, active_counterparty_ids, execution_venues, clearing_houses, source_systems,
  physically_settled_products,
}
use snowflake_trade_pipeline.Schema.{is_currency, char_count, buy, sell}
use snowflake_trade_pipeline.Generator.Draws.{
  Settings, FieldDraws, choice, choice-Returns, happens, randint_bounds,
}
use snowflake_trade_pipeline.Generator.Fields.{
  TradeFields, new_trade_fields, currency_pool, trader_ids, tenor_days, business_days_from,
}
use snowflake_trade_pipeline.Generator.Clock.{business_days_from-Returns}
use snowflake_trade_pipeline.Generator.Readable.{IsKnownBook, last_day}

books_known : All (λ (b : Book). IsKnownBook b.book_id) books
unfolding book_by_id
books_known =
    ((_, refl), ((_, refl), ((_, refl), ((_, refl), ((_, refl), ((_, refl), ((_, refl), tt)))))))

module _ {A : Type 0} where
  All-Unit : (xs : List A) → All (λ _. Unit {0}) xs
  All-Unit [] = tt
  All-Unit (x ∷ xs) = (tt, All-Unit xs)

  pub choice-Returns_full :
      (xs : List A) (draw : ℕ) → 0 < length xs → Returns (λ _. Unit {0}) (choice xs draw)
  choice-Returns_full xs draw h = choice-Returns (λ _. Unit {0}) xs draw (All-Unit xs) h

  pub choice_ok : (xs : List A) (draw : ℕ) → 0 < length xs → (a : A) × (choice xs draw ≡ ok a)
  choice_ok xs draw h =
      let (a, e, _) = Returns-value _ (choice xs draw) (choice-Returns_full xs draw h) in (a, e)

  -- A choice from a list that is not empty can be passed over.
  pub Returns-choice :
      {B : Type 0} (Q : B → Type 0) (xs : List A) (draw : ℕ) (f : A → Result B)
      → 0 < length xs
      → ((a : A) → Returns Q (f a))
      → Returns Q (choice xs draw >>= f)
  Returns-choice Q xs draw f h k =
      Returns-bind (λ _. Unit {0}) Q (choice xs draw) f (choice-Returns_full xs draw h) (λ a _. k a)

currency_pool_full : (p : Product) → 0 < length (currency_pool p)
unfolding currency_pool keep
currency_pool_full p = elim (Bool-cases (contains physically_settled_products p.product_type)) [
  | inl e ↦ rw e (omega arith)
  | inr e ↦ rw e (omega arith)
]

abbrev every {ℓ} : {A : Type ℓ} → (A → Bool) → List A → Bool
every p [] = true
every p (x ∷ xs) = p x && every p xs

every-All {ℓ} :
    {A : Type ℓ} (p : A → Bool) (xs : List A) → every p xs ≡ true → All (λ x. p x ≡ true) xs
every-All p [] h = tt
every-All p (x ∷ xs) h = (ground arith, every-All p xs (ground arith))

-- The tenors of a product are in order, and none is longer than 30 years of 365 days.
abbrev is_short : Product → Bool
is_short p = leb p.tenor_days_min p.tenor_days_max && leb p.tenor_days_max 10950

products_short : All (λ p. is_short p ≡ true) (product_pool products)
unfolding product_pool
products_short = every-All is_short (product_pool products) refl

currencies_valid : (p : Product) → All (λ c. is_currency c ≡ true) (currency_pool p)
unfolding currency_pool keep is_currency char_count
currencies_valid p = elim (Bool-cases (contains physically_settled_products p.product_type)) [
  | inl e ↦ rw e (every-All is_currency deliverable_currency_codes refl)
  | inr e ↦ rw e (every-All is_currency currency_codes refl)
]

tenor_days-bounds :
    (settings : Settings) (p : Product) (d : FieldDraws)
    → is_short p ≡ true
    → tenor_days settings p d ≤ 10950
unfolding tenor_days
tenor_days-bounds settings p d h = elim (Bool-cases (happens settings.near_maturity_rate d.near)) [
  | inl e ↦ rw e (omega (arith, randint_bounds 1 3 d.tenor (omega arith)))
  | inr e ↦
      let ordered : p.tenor_days_min ≤ p.tenor_days_max = ground arith in
      let low : p.tenor_days_max ≤ 10950 = ground arith in
      rw e (omega (arith, randint_bounds p.tenor_days_min p.tenor_days_max d.tenor ordered))
]

-- The fields of a fresh trade name a known book, the day of the batch, valid currencies and the
-- notional drawn.
abbrev pub IsFresh : ℕ → FieldDraws → TradeFields → Type 0
IsFresh as_of d f =
    IsKnownBook f.book_id
    × (f.trade_date ≡ as_of)
    × (is_currency f.notional_currency ≡ true)
    × (is_currency f.settlement_currency ≡ true)
    × (f.notional_amount ≡ d.notional)

pub new_trade_fields-IsFresh :
    (settings : Settings) (as_of : ℕ) (d : FieldDraws)
    → as_of ≤ last_day
    → Returns (IsFresh as_of d) (new_trade_fields settings as_of d)
unfolding new_trade_fields product_pool trader_ids
new_trade_fields-IsFresh settings as_of d early =
    Returns-bind (λ p. is_short p ≡ true) _ (choice (product_pool products) d.product) _
      (choice-Returns (λ p. is_short p ≡ true) (product_pool products) d.product products_short
        (omega arith))
      λ product short.
        Returns-bind (λ (b : Book). IsKnownBook b.book_id) _ (choice books d.book) _
          (choice-Returns (λ (b : Book). IsKnownBook b.book_id) books d.book books_known
            (omega arith))
          λ book known.
            Returns-bind (λ c. is_currency c ≡ true) _ (choice (currency_pool product) d.currency) _
              (choice-Returns (λ c. is_currency c ≡ true) (currency_pool product) d.currency
                (currencies_valid product) (currency_pool_full product))
              λ currency valid.
                Returns-bind (λ _. Unit {0}) _ (business_days_from as_of 2) _
                  (business_days_from-Returns as_of 2 (omega arith))
                  λ _ _.
                    Returns-bind (λ _. Unit {0}) _
                      (business_days_from as_of (max (tenor_days settings product d) 1)) _
                      (business_days_from-Returns as_of (max (tenor_days settings product d) 1)
                        (omega (arith, tenor_days-bounds settings product d short)))
                      λ _ _. Returns-choice _ (buy ∷ sell ∷ []) d.direction _ (omega arith) λ _.
                        Returns-choice _ active_counterparty_ids d.counterparty _
                          (unfold keep in omega arith)
                          λ _. Returns-choice _ trader_ids d.trader _ (omega arith) λ _.
                            Returns-choice _ execution_venues d.venue _ (omega arith) λ _.
                              Returns-choice _ clearing_houses d.house _ (omega arith) λ _.
                                Returns-choice _ source_systems d.source _ (omega arith)
                                  λ _. (known, refl, valid, valid, refl)
