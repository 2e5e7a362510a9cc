-- ===== src/Book/Format.antt =====
-- The trade identifiers `f"TRD-{n:09d}"`: two numbers never share one.
use Prim.Native.Char.{Char, code}
use snowflake_trade_pipeline.Prelude.{
  ℕ, zero, suc, ◌+◌, ◌-◌, ◌*◌, ◌/◌, ◌%◌, ◌<◌, String, ◌≡◌, refl, sym, ap, ◌∙◌, arith, ltb,
  if◌then◌else◌, true, ◌^◌, ◌≤◌,
}
use snowflake_trade_pipeline.Schema.{is_digit, is_digits, is_trade_id, char_count}

abbrev digit : ℕ → Char
digit zero = "0"
digit (suc zero) = "1"
digit (suc (suc zero)) = "2"
digit (suc (suc (suc zero))) = "3"
digit (suc (suc (suc (suc zero)))) = "4"
digit (suc (suc (suc (suc (suc zero))))) = "5"
digit (suc (suc (suc (suc (suc (suc zero)))))) = "6"
digit (suc (suc (suc (suc (suc (suc (suc zero))))))) = "7"
digit (suc (suc (suc (suc (suc (suc (suc (suc zero)))))))) = "8"
digit _ = "9"

-- The digits of `n` in front of `more`, most significant first, with zeros up to the width `w`.
-- With `n` for fuel the division ends by its test.
digits : ℕ → ℕ → ℕ → String → String
digits zero w n more = more
digits (suc fuel) w n more =
    let rest = digits fuel (w - 1) (n / 10) (String.◌∷◌ (digit (n % 10)) more) in
    if ltb 0 n then rest else if ltb 0 w then rest else more

-- `f"{n:0{w}d}"` in front of `more`
unfoldable pub zero_padded : ℕ → ℕ → String
unfolding digits
zero_padded w n = digits (n + w + 1) w n ""

unfoldable pub trade_id_text : ℕ → String
unfolding zero_padded
trade_id_text n =
    String.◌∷◌ "T" (String.◌∷◌ "R" (String.◌∷◌ "D" (String.◌∷◌ "-" (zero_padded 9 n))))

-- The number that a text of digits stands for, behind the digits read so far.
read : ℕ → String → ℕ
read acc String.[] = acc
read acc (String.◌∷◌ c s) = read (acc * 10 + (code c - 48)) s

digit_value : (d : ℕ) → d < 10 → code (digit d) - 48 ≡ d
digit_value zero h = refl
digit_value (suc zero) h = refl
digit_value (suc (suc zero)) h = refl
digit_value (suc (suc (suc zero))) h = refl
digit_value (suc (suc (suc (suc zero)))) h = refl
digit_value (suc (suc (suc (suc (suc zero))))) h = refl
digit_value (suc (suc (suc (suc (suc (suc zero)))))) h = refl
digit_value (suc (suc (suc (suc (suc (suc (suc zero))))))) h = refl
digit_value (suc (suc (suc (suc (suc (suc (suc (suc zero)))))))) h = refl
digit_value (suc (suc (suc (suc (suc (suc (suc (suc (suc d))))))))) h = omega arith

last_digit : (n : ℕ) → (n / 10) * 10 + (code (digit (n % 10)) - 48) ≡ n
last_digit n = omega (arith, digit_value (n % 10) (omega arith))

read-digits :
    (fuel w n : ℕ) (more : String) → n + w < fuel → read 0 (digits fuel w n more) ≡ read n more
unfolding digits read
read-digits zero w n more h = elim h [ ]
read-digits (suc fuel) w n more h =
    ground
      (arith, read-digits fuel (w - 1) (n / 10) (String.◌∷◌ (digit (n % 10)) more), last_digit n)

-- The number is read back from its padded text.
read-zero_padded : (w n : ℕ) → read 0 (zero_padded w n) ≡ n
unfolding zero_padded read
read-zero_padded w n = read-digits (n + w + 1) w n "" (omega arith)

read_sequence : String → ℕ
read_sequence (String.◌∷◌ a (String.◌∷◌ b (String.◌∷◌ c (String.◌∷◌ d s)))) = read 0 s
read_sequence _ = 0

read_sequence-trade_id_text : (n : ℕ) → read_sequence (trade_id_text n) ≡ n
unfolding read_sequence trade_id_text
read_sequence-trade_id_text n = read-zero_padded 9 n

-- Two numbers whose identifiers are the same text are the same, numbers of more than nine digits
-- included.
pub trade_id_text-injective : (m n : ℕ) → trade_id_text m ≡ trade_id_text n → m ≡ n
trade_id_text-injective m n e =
    sym (read_sequence-trade_id_text m) ∙ ap read_sequence e ∙ read_sequence-trade_id_text n

digit-is_digit : (d : ℕ) → d < 10 → is_digit (digit d) ≡ true
unfolding is_digit
digit-is_digit zero h = refl
digit-is_digit (suc zero) h = refl
digit-is_digit (suc (suc zero)) h = refl
digit-is_digit (suc (suc (suc zero))) h = refl
digit-is_digit (suc (suc (suc (suc zero)))) h = refl
digit-is_digit (suc (suc (suc (suc (suc zero))))) h = refl
digit-is_digit (suc (suc (suc (suc (suc (suc zero)))))) h = refl
digit-is_digit (suc (suc (suc (suc (suc (suc (suc zero))))))) h = refl
digit-is_digit (suc (suc (suc (suc (suc (suc (suc (suc zero)))))))) h = refl
digit-is_digit (suc (suc (suc (suc (suc (suc (suc (suc (suc d))))))))) h = refl

-- A number of at most `w` digits is padded to exactly `w`.
digits-is_digits :
    (fuel w n j : ℕ) (more : String)
    → n + w < fuel
    → n < 10 ^ w
    → is_digits j more ≡ true
    → is_digits (w + j) (digits fuel w n more) ≡ true
unfolding digits is_digits
digits-is_digits zero w n j more h small m = elim h [ ]
digits-is_digits (suc fuel) zero n j more h small m =
    let none_left : n ≡ 0 = omega arith in
    let no_more : 0 + j ≡ j = omega arith in rw (none_left, no_more) m
digits-is_digits (suc fuel) (suc w) n j more h small m =
    let longer : is_digits (suc j) (String.◌∷◌ (digit (n % 10)) more) ≡ true =
      rw (digit-is_digit (n % 10) (omega arith)) m in
    let rest =
      digits-is_digits fuel w (n / 10) (suc j) (String.◌∷◌ (digit (n % 10)) more) (omega arith)
        (omega arith) longer in
    let shift : suc w + j ≡ w + suc j = omega arith in rw shift (ground (arith, rest))

-- The identifier of a number below a thousand millions has the form that the schema asks for.
pub trade_id_text-is_trade_id : (n : ℕ) → n < 1000000000 → is_trade_id (trade_id_text n) ≡ true
unfolding is_trade_id trade_id_text zero_padded is_digits
trade_id_text-is_trade_id n h = digits-is_digits (n + 9 + 1) 9 n 0 "" (omega arith) h refl

length-digits :
    (fuel w k n : ℕ) (more : String)
    → n < 10 ^ k
    → char_count (digits fuel w n more) ≤ w + k + char_count more
unfolding digits char_count
length-digits zero w k n more h = omega arith
length-digits (suc fuel) w zero n more h =
    let none_left : n ≡ 0 = omega arith in
    ground
      (arith, none_left, length-digits fuel (w - 1) 0 (n / 10) (String.◌∷◌ (digit (n % 10)) more))
length-digits (suc fuel) w (suc k) n more h =
    let fewer : n / 10 < 10 ^ k = omega arith in
    ground (arith, length-digits fuel (w - 1) k (n / 10) (String.◌∷◌ (digit (n % 10)) more) fewer)

pub length-zero_padded : (n : ℕ) → n < 10000 → char_count (zero_padded 0 n) ≤ 4
unfolding zero_padded char_count
length-zero_padded n h = length-digits (n + 0 + 1) 0 4 n "" h
