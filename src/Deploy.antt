-- ===== src/Deploy.antt =====
-- `split_statements` and `_is_executable` of scripts/deploy_snowflake_sql.py: a script is cut into
-- statements at the semicolons outside comments, literals and dollar-quoted bodies.
pub mod Apply
pub mod Context
pub mod Substitute
pub mod Render
pub mod Phases
pub mod Plan
pub mod Templates
pub mod Filling
pub mod Schemas
pub mod Texts
pub mod Chunks
pub mod Numbers
pub mod Quotes
use Prim.Native.Char.{Char, code}
use snowflake_trade_pipeline.Prelude.{
  ℕ, zero, suc, ◌+◌, ◌-◌, String, Bool, true, false, not, ◌&&◌, ◌||◌, List, [], ◌∷◌, ◌++◌, ltb,
  if◌then◌else◌, ◌==◌, nat_eq, string_eq,
}
use Texts.{append, snoc, strip, drop_line_comments, drop_block_comments}

-- The file of a statement is that of the whole script.
pub record Statement : Type 0 where
  pub sql : String
  pub index : ℕ
  pub line : ℕ

unfoldable pub is_executable : String → Bool
unfolding drop_line_comments drop_block_comments strip
is_executable candidate =
    not (candidate == "") && not (strip (drop_block_comments (drop_line_comments candidate)) == "")

-- The five flags `in_…`: one is set only where none is, so they are one mode.
pub data Mode : Type 0 where
  plain line_comment block_comment dollar_quote single_quote double_quote : Mode

pub record Splitter : Type 0 where
  pub mode : Mode
  pub buffer : String
  pub index : ℕ
  pub line_number : ℕ
  pub statement_start_line : ℕ
  pub statements : List Statement

-- The tests on `next_two`, by which two characters are taken at once.
unfoldable pub takes_two : Mode → Char → Char → Bool
takes_two plain c d =
    (code c == b'-' && code d == b'-')
    || (code c == b'/' && code d == b'*')
    || (code c == b'$' && code d == b'$')
takes_two line_comment c d = false
takes_two block_comment c d = code c == b'*' && code d == b'/'
takes_two dollar_quote c d = code c == b'$' && code d == b'$'
takes_two single_quote c d = code c == b'\'' && code d == b'\''
takes_two double_quote c d = false

-- The mode after two characters that are taken at once, by the first of them.
unfoldable pub mode_two : Mode → Char → Mode
mode_two plain c =
    if code c == b'-' then line_comment else if code c == b'/' then block_comment else dollar_quote
mode_two single_quote c = single_quote
mode_two _ c = plain

-- The mode after one character.
unfoldable pub mode_one : Mode → Char → Mode
mode_one plain c =
    if code c == b'\'' then single_quote else if code c == b'"' then double_quote else plain
mode_one line_comment c = if code c == b'\n' then plain else line_comment
mode_one single_quote c = if code c == b'\'' then plain else single_quote
mode_one double_quote c = if code c == b'"' then plain else double_quote
mode_one m c = m

-- `;` where nothing is open.
unfoldable pub ends_statement : Mode → Char → Bool
ends_statement plain c = code c == b';'
ends_statement _ c = false

unfoldable pub count_line : Char → ℕ → ℕ
count_line c n = if code c == b'\n' then n + 1 else n

-- The buffer becomes a statement if it holds SQL.
unfoldable pub emit : Splitter → Splitter
unfolding strip is_executable
emit s =
    let candidate = strip s.buffer in
    if is_executable candidate
    then record s {
      statements =
          s.statements
          ++ record { sql = candidate; index = s.index; line = s.statement_start_line } ∷ [];
      index = s.index + 1;
    }
    else s

unfoldable pub take_one : Char → Splitter → Splitter
unfolding emit count_line
take_one c s =
    let n = count_line c s.line_number in
    if ends_statement s.mode c
    then record (emit s) { buffer = ""; line_number = n; statement_start_line = n }
    else record s { mode = mode_one s.mode c; buffer = snoc s.buffer c; line_number = n }

unfoldable pub take_two : Char → Char → Splitter → Splitter
unfolding count_line
take_two c d s = record s {
  mode = mode_two s.mode c;
  buffer = snoc (snoc s.buffer c) d;
  line_number = count_line c s.line_number;
}

-- The `while` loop, and the trailing statement behind it.
unfoldable pub scan : Splitter → String → Splitter
scan s String.[] = emit s
scan s (String.◌∷◌ c String.[]) = emit (take_one c s)
scan s (String.◌∷◌ c (String.◌∷◌ d text)) = elim (takes_two s.mode c d) [
  | true ↦ scan (take_two c d s) text
  | false ↦ scan (take_one c s) (String.◌∷◌ d text)
]

abbrev pub at_start : Splitter
at_start = record {
  mode = plain;
  buffer = "";
  index = 1;
  line_number = 1;
  statement_start_line = 1;
  statements = [];
}

unfoldable pub split_statements : String → List Statement
unfolding scan
split_statements sql = (scan at_start sql).statements
