-- ===== src/Deploy/Texts.antt =====
-- The operations on texts that scripts/deploy_snowflake_sql.py makes: `strip`, and the two regular
-- expressions that drop comments.
use Prim.Native.Char.{Char, code}
use snowflake_trade_pipeline.Prelude.{
  ◌≡◌, refl, ap, String, Bool, true, false, ◌&&◌, ◌||◌, ltb, if◌then◌else◌, ◌==◌, nat_eq, string_eq,
}

abbrev pub append : String → String → String
append String.[] t = t
append (String.◌∷◌ c s) t = String.◌∷◌ c (append s t)

abbrev pub snoc : String → Char → String
snoc s c = append s (String.◌∷◌ c "")

pub append_assoc : (s t u : String) → append (append s t) u ≡ append s (append t u)
append_assoc String.[] t u = refl
append_assoc (String.◌∷◌ c s) t u = ap (λ r. String.◌∷◌ c r) (append_assoc s t u)

pub append-nil : (s : String) → append s "" ≡ s
append-nil String.[] = refl
append-nil (String.◌∷◌ c s) = ap (λ r. String.◌∷◌ c r) (append-nil s)

-- `str.isspace` of one character
unfoldable pub is_space : Char → Bool
is_space c =
    let n = code c in
    n == 32
    || (ltb 8 n && ltb n 14)
    || (ltb 27 n && ltb n 32)
    || n == 133
    || n == 160
    || n == 5760
    || (ltb 8191 n && ltb n 8203)
    || n == 8232
    || n == 8233
    || n == 8239
    || n == 8287
    || n == 12288

unfoldable pub strip_left : String → String
unfolding is_space
strip_left String.[] = ""
strip_left (String.◌∷◌ c s) = let rest = strip_left s in if is_space c then rest else String.◌∷◌ c s

-- A character in front, unless only blanks stand here.
unfoldable pub strip_right : String → String
unfolding is_space
strip_right String.[] = ""
strip_right (String.◌∷◌ c s) =
    let rest = strip_right s in if rest == "" && is_space c then "" else String.◌∷◌ c rest

unfoldable pub strip : String → String
strip s = strip_right (strip_left s)

-- `re.sub(r"--[^\n]*", "", s)`, inside a comment or not.
unfoldable pub drop_line : Bool → String → String
drop_line b String.[] = ""
drop_line true (String.◌∷◌ c s) = elim (code c == b'\n') [
  | true ↦ String.◌∷◌ c (drop_line false s)
  | false ↦ drop_line true s
]
drop_line false (String.◌∷◌ c String.[]) = String.◌∷◌ c ""
drop_line false (String.◌∷◌ c (String.◌∷◌ d s)) = elim (code c == b'-' && code d == b'-') [
  | true ↦ drop_line true s
  | false ↦ String.◌∷◌ c (drop_line false (String.◌∷◌ d s))
]

unfoldable pub drop_line_comments : String → String
drop_line_comments s = drop_line false s

-- `*/` follows.
unfoldable pub is_closed : String → Bool
is_closed (String.◌∷◌ c (String.◌∷◌ d s)) =
    (code c == b'*' && code d == b'/') || is_closed (String.◌∷◌ d s)
is_closed _ = false

-- `re.sub(r"/\*.*?\*/", "", s, flags=re.DOTALL)`, inside a comment or not. A comment that is not
-- closed does not match.
unfoldable pub drop_block : Bool → String → String
drop_block b String.[] = ""
drop_block true (String.◌∷◌ c String.[]) = ""
drop_block true (String.◌∷◌ c (String.◌∷◌ d s)) = elim (code c == b'*' && code d == b'/') [
  | true ↦ drop_block false s
  | false ↦ drop_block true (String.◌∷◌ d s)
]
drop_block false (String.◌∷◌ c String.[]) = String.◌∷◌ c ""
drop_block false (String.◌∷◌ c (String.◌∷◌ d s)) =
    elim (code c == b'/' && code d == b'*' && is_closed s) [
      | true ↦ drop_block true s
      | false ↦ String.◌∷◌ c (drop_block false (String.◌∷◌ d s))
    ]

unfoldable pub drop_block_comments : String → String
drop_block_comments s = drop_block false s
