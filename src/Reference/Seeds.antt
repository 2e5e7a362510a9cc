-- ===== src/Reference/Seeds.antt =====
-- `build_seed_specs` of ingestion/src/trade_sim/reference.py: the seed files of the reference tables,
-- each cell as the text that the CSV writer makes of it.
use snowflake_trade_pipeline.Prelude.{
  ℕ, String, Bool, true, false, List, [], ◌∷◌, map, string_eq, contains,
}
use snowflake_trade_pipeline.Book.Format.{zero_padded}
use snowflake_trade_pipeline.Deploy.Texts.{append}
use snowflake_trade_pipeline.Reference.{
  counterparties, currencies, products, books, rejection_reasons, physically_settled_products,
}

pub record SeedSpec : Type 0 where
  pub filename : String
  pub header : List String
  pub rows : List (List String)

-- `str(b).lower()`
abbrev pub bool_text : Bool → String
bool_text true = "true"
bool_text false = "false"

-- `f"{n:.2f}"` of a whole number
unfoldable pub two_decimals : ℕ → String
unfolding zero_padded
two_decimals n = append (zero_padded 1 n) ".00"

unfoldable pub build_seed_specs : List SeedSpec
unfolding contains two_decimals zero_padded
build_seed_specs =
    record {
      filename = "ref_counterparty.csv";
      header =
          "counterparty_id" ∷ "counterparty_name" ∷ "lei" ∷ "country_code" ∷ "credit_rating"
          ∷ "is_active" ∷ [];
      rows =
          map
            (λ c.
              c.counterparty_id
              ∷ c.counterparty_name
              ∷ c.lei
              ∷ c.country_code
              ∷ c.credit_rating
              ∷ bool_text c.is_active
              ∷ [])
            counterparties;
    }
    ∷ record {
      filename = "ref_currency.csv";
      header = "currency_code" ∷ "currency_name" ∷ "minor_units" ∷ "is_deliverable" ∷ [];
      rows =
          map
            (λ c.
              c.currency_code
              ∷ c.currency_name
              ∷ zero_padded 1 c.minor_units
              ∷ bool_text c.is_deliverable
              ∷ [])
            currencies;
    }
    ∷ record {
      filename = "ref_product.csv";
      header = "product_type" ∷ "asset_class" ∷ "requires_maturity" ∷ "is_physically_settled" ∷ [];
      rows =
          map
            (λ p.
              p.product_type
              ∷ p.asset_class
              ∷ bool_text p.requires_maturity
              ∷ bool_text (contains physically_settled_products p.product_type)
              ∷ [])
            products;
    }
    ∷ record {
      filename = "ref_book.csv";
      header = "book_id" ∷ "book_name" ∷ "desk" ∷ "legal_entity" ∷ "notional_limit" ∷ [];
      rows =
          map
            (λ b.
              b.book_id
              ∷ b.book_name
              ∷ b.desk
              ∷ b.legal_entity
              ∷ two_decimals b.notional_limit
              ∷ [])
            books;
    }
    ∷ record {
      filename = "ref_rejection_reason.csv";
      header =
          "rule_code" ∷ "rule_name" ∷ "rule_category" ∷ "severity" ∷ "requirement_ref"
          ∷ "description" ∷ "remediation" ∷ [];
      rows =
          map
            (λ r.
              r.rule_code ∷ r.rule_name ∷ r.rule_category ∷ r.severity ∷ r.requirement_ref
              ∷ r.description ∷ r.remediation ∷ [])
            rejection_reasons;
    }
    ∷ []
