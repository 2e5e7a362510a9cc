-- ===== src/Reference.antt =====
-- ingestion/src/trade_sim/reference.py: the tables, and the lookups that the simulator makes in them.
pub mod Seeds
mod Tables
mod Reasons
pub use Tables.*
pub use Reasons.*
use snowflake_trade_pipeline.Prelude.{
  ℕ, zero, suc, String, Bool, not, List, [], ◌∷◌, ◌++◌, map, Option, none, some, keep, ◌==◌,
  string_eq, if◌then◌else◌,
}

-- A row is found by its key: `{r.key: r for r in rows}`, whose keys are distinct.
unfoldable pub find {ℓ} : {A : Type ℓ} → (A → String) → List A → String → Option A
find key [] k = none
find key (r ∷ rows) k = if key r == k then some r else find key rows k

abbrev pub active_counterparty_ids : List String
unfolding keep
active_counterparty_ids = map (λ c. c.counterparty_id) (keep (λ c. c.is_active) counterparties)

abbrev pub inactive_counterparty_ids : List String
unfolding keep
inactive_counterparty_ids =
    map (λ c. c.counterparty_id) (keep (λ c. not c.is_active) counterparties)

abbrev pub currency_codes : List String
currency_codes = map (λ c. c.currency_code) currencies

abbrev pub deliverable_currency_codes : List String
unfolding keep
deliverable_currency_codes = map (λ c. c.currency_code) (keep (λ c. c.is_deliverable) currencies)

abbrev pub non_deliverable_currency_codes : List String
unfolding keep
non_deliverable_currency_codes =
    map (λ c. c.currency_code) (keep (λ c. not c.is_deliverable) currencies)

abbrev pub book_ids : List String
book_ids = map (λ b. b.book_id) books

unfoldable pub book_by_id : String → Option Book
unfolding find
book_by_id = find (λ b. b.book_id) books

unfoldable pub rejection_reason_by_code : String → Option RejectionReason
unfolding find
rejection_reason_by_code = find (λ r. r.rule_code) rejection_reasons

abbrev replicate : ℕ → Product → List Product
replicate zero p = []
replicate (suc n) p = p ∷ replicate n p

-- `tuple(p for p in ref.PRODUCTS for _ in range(p.weight))`
unfoldable pub product_pool : List Product → List Product
product_pool [] = []
product_pool (p ∷ ps) = replicate p.weight p ++ product_pool ps
