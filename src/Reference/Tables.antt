-- ===== src/Reference/Tables.antt =====
-- The reference tables of ingestion/src/trade_sim/reference.py, row by row. Notionals and limits
-- are whole units there, so the floats are natural numbers here.
use snowflake_trade_pipeline.Prelude.{ℕ, String, Bool, true, false, List, [], ◌∷◌}

pub record Counterparty : Type 0 where
  pub counterparty_id : String
  pub counterparty_name : String
  pub lei : String
  pub country_code : String
  pub credit_rating : String
  pub is_active : Bool

abbrev pub counterparty : String → String → String → String → String → Bool → Counterparty
counterparty x0 x1 x2 x3 x4 x5 = record {
  counterparty_id = x0;
  counterparty_name = x1;
  lei = x2;
  country_code = x3;
  credit_rating = x4;
  is_active = x5;
}

pub record Currency : Type 0 where
  pub currency_code : String
  pub currency_name : String
  pub minor_units : ℕ
  pub is_deliverable : Bool

abbrev pub currency : String → String → ℕ → Bool → Currency
currency x0 x1 x2 x3 = record {
  currency_code = x0;
  currency_name = x1;
  minor_units = x2;
  is_deliverable = x3;
}

pub record Product : Type 0 where
  pub product_type : String
  pub asset_class : String
  pub tenor_days_min : ℕ
  pub tenor_days_max : ℕ
  pub notional_min : ℕ
  pub notional_max : ℕ
  pub requires_maturity : Bool
  pub weight : ℕ

abbrev pub product : String → String → ℕ → ℕ → ℕ → ℕ → Bool → ℕ → Product
product x0 x1 x2 x3 x4 x5 x6 x7 = record {
  product_type = x0;
  asset_class = x1;
  tenor_days_min = x2;
  tenor_days_max = x3;
  notional_min = x4;
  notional_max = x5;
  requires_maturity = x6;
  weight = x7;
}

pub record Book : Type 0 where
  pub book_id : String
  pub book_name : String
  pub desk : String
  pub legal_entity : String
  pub notional_limit : ℕ

abbrev pub book : String → String → String → String → ℕ → Book
book x0 x1 x2 x3 x4 = record {
  book_id = x0;
  book_name = x1;
  desk = x2;
  legal_entity = x3;
  notional_limit = x4;
}

abbrev pub counterparties : List Counterparty
counterparties =
    counterparty "CP0001" "Aldgate Capital Partners LLP" "5493001KJTIIGC8Y1R12" "GB" "A+" true
    ∷ counterparty "CP0002" "Bergstrom Nordic Bank AB" "549300ZJTIIGC8Y1R213" "SE" "AA-" true
    ∷ counterparty "CP0003" "Cortez Iberia Inversiones SA" "5493004KJTIIGC8Y1R14" "ES" "BBB+" true
    ∷ counterparty "CP0004" "Daiwa Meridian Securities KK" "5493005KJTIIGC8Y1R15" "JP" "A" true
    ∷ counterparty "CP0005" "Eiffel Structured Finance SA" "5493006KJTIIGC8Y1R16" "FR" "AA" true
    ∷ counterparty "CP0006" "Frankfurter Handelsbank AG" "5493007KJTIIGC8Y1R17" "DE" "AA+" true
    ∷ counterparty "CP0007" "Gotham Prime Brokerage Inc" "5493008KJTIIGC8Y1R18" "US" "A-" true
    ∷ counterparty "CP0008" "Helvetia Zurich Privatbank AG" "5493009KJTIIGC8Y1R19" "CH" "AAA" true
    ∷ counterparty "CP0009" "Iberville Louisiana Trust" "5493010KJTIIGC8Y1R20" "US" "BBB" true
    ∷ counterparty "CP0010" "Jakarta Sentral Sekuritas" "5493011KJTIIGC8Y1R21" "ID" "BB+" true
    ∷ counterparty "CP0011" "Kowloon Pacific Holdings Ltd" "5493012KJTIIGC8Y1R22" "HK" "A" true
    ∷ counterparty "CP0012" "Lombard Street Asset Mgmt" "5493013KJTIIGC8Y1R23" "GB" "A+" true
    ∷ counterparty "CP0013" "Maastricht Delta Fondsen NV" "5493014KJTIIGC8Y1R24" "NL" "AA-" true
    ∷ counterparty "CP0014" "Nordkapp Energi Trading AS" "5493015KJTIIGC8Y1R25" "NO" "BBB+" true
    ∷ counterparty "CP0015" "Osaka Kansai Shoji Co" "5493016KJTIIGC8Y1R26" "JP" "A-" true
    ∷ counterparty "CP0016" "Piedmont Alpine SGR SpA" "5493017KJTIIGC8Y1R27" "IT" "BBB" true
    ∷ counterparty "CP0017" "Queensway Antipodean Ltd" "5493018KJTIIGC8Y1R28" "AU" "A" true
    ∷ counterparty "CP0018" "Rialto Veneto Banca SpA" "5493019KJTIIGC8Y1R29" "IT" "BB" true
    ∷ counterparty "CP0019" "Stockholm Vasa Kapital AB" "5493020KJTIIGC8Y1R30" "SE" "AA" true
    ∷ counterparty "CP0020" "Tanjong Straits Investments" "5493021KJTIIGC8Y1R31" "SG" "A+" true
    ∷ counterparty "CP0021" "Umbria Legacy Holdings Srl" "5493022KJTIIGC8Y1R32" "IT" "D" false
    ∷ counterparty "CP0022" "Vantage Bridge Ltd (in admin)" "5493023KJTIIGC8Y1R33" "GB" "D" false
    ∷ counterparty "CP0023" "Westhafen Rhein Kredit AG" "5493024KJTIIGC8Y1R34" "DE" "A" true
    ∷ counterparty "CP0024" "Yokohama Bay Financial Ltd" "5493025KJTIIGC8Y1R35" "JP" "BBB+" true
    ∷ []

abbrev pub currencies : List Currency
currencies =
    currency "USD" "US Dollar" 2 true
    ∷ currency "EUR" "Euro" 2 true
    ∷ currency "GBP" "Pound Sterling" 2 true
    ∷ currency "JPY" "Japanese Yen" 0 true
    ∷ currency "CHF" "Swiss Franc" 2 true
    ∷ currency "AUD" "Australian Dollar" 2 true
    ∷ currency "CAD" "Canadian Dollar" 2 true
    ∷ currency "SEK" "Swedish Krona" 2 true
    ∷ currency "NOK" "Norwegian Krone" 2 true
    ∷ currency "SGD" "Singapore Dollar" 2 true
    ∷ currency "HKD" "Hong Kong Dollar" 2 true
    ∷ currency "KRW" "South Korean Won" 0 false
    ∷ currency "INR" "Indian Rupee" 2 false
    ∷ currency "BRL" "Brazilian Real" 2 false
    ∷ []

abbrev pub products : List Product
products =
    product "FX_SPOT" "FX" 2 2 100000 50000000 true 25
    ∷ product "FX_FORWARD" "FX" 7 730 250000 100000000 true 20
    ∷ product "FX_SWAP" "FX" 30 1095 500000 250000000 true 12
    ∷ product "NDF" "FX" 30 365 250000 50000000 true 6
    ∷ product "IRS" "RATES" 365 10950 1000000 500000000 true 18
    ∷ product "OIS" "RATES" 90 3650 1000000 250000000 true 6
    ∷ product "CDS" "CREDIT" 365 3650 1000000 100000000 true 5
    ∷ product "EQUITY_SWAP" "EQUITY" 90 1095 500000 75000000 true 5
    ∷ product "BOND" "CREDIT" 365 10950 100000 200000000 true 3
    ∷ []

abbrev pub books : List Book
books =
    book "BK-FX-LDN-01" "FX Cash London" "FX_CASH" "DB London Branch" 250000000
    ∷ book "BK-FX-LDN-02" "FX Forwards London" "FX_FWD" "DB London Branch" 300000000
    ∷ book "BK-FX-SGP-01" "FX Cash Singapore" "FX_CASH" "DB Singapore Branch" 150000000
    ∷ book "BK-RT-FRA-01" "Rates Flow Frankfurt" "RATES_FLOW" "DB AG Frankfurt" 500000000
    ∷ book "BK-RT-FRA-02" "Rates Structured Frankfurt" "RATES_STRUCT" "DB AG Frankfurt" 400000000
    ∷ book "BK-CR-NYC-01" "Credit Flow New York" "CREDIT_FLOW" "DB Securities Inc" 200000000
    ∷ book "BK-EQ-LDN-01" "Equity Derivatives London" "EQD" "DB London Branch" 100000000
    ∷ []

abbrev pub invalid_currency_tokens : List String
invalid_currency_tokens = "US" ∷ "XXX" ∷ "EURO" ∷ "GB£" ∷ "" ∷ "N/A" ∷ "000" ∷ []

abbrev pub unsupported_product_tokens : List String
unsupported_product_tokens = "CRYPTO_PERP" ∷ "WEATHER_DERIV" ∷ "UNKNOWN" ∷ "FX_OPTION_EXOTIC" ∷ []

abbrev pub invalid_book_tokens : List String
invalid_book_tokens = "BK-XX-XXX-99" ∷ "UNKNOWN_BOOK" ∷ "" ∷ "BK-FX-LDN-99" ∷ []

abbrev pub invalid_direction_tokens : List String
invalid_direction_tokens = "B" ∷ "S" ∷ "LONG" ∷ "SHRT" ∷ "" ∷ []

abbrev pub execution_venues : List String
execution_venues =
    "XOFF" ∷ "XLON" ∷ "XETR" ∷ "BMTF" ∷ "TRDX" ∷ "REUT" ∷ "BLMB" ∷ "MRKT" ∷ "TWEB" ∷ []

abbrev pub clearing_houses : List String
clearing_houses = "LCH" ∷ "EUREX" ∷ "ICE_EU" ∷ "CME" ∷ "NONE" ∷ []

abbrev pub source_systems : List String
source_systems = "MUREX" ∷ "CALYPSO" ∷ "SUMMIT" ∷ "FRONT_ARENA" ∷ "INTERNAL_EFX" ∷ []

abbrev pub physically_settled_products : List String
physically_settled_products = "FX_SPOT" ∷ "FX_FORWARD" ∷ "FX_SWAP" ∷ "BOND" ∷ []
