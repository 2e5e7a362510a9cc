-- ===== src/SqlRunner/Table.antt =====
-- `render_table` of scripts/run_sql.py. A value is known by its text, `str(value)`, and `None` is
-- `none`.
use Prim.Native.Char.{Char, code}
use snowflake_trade_pipeline.Prelude.{
  ℕ, zero, suc, ◌-◌, max, String, ◌||◌, Option, none, some, List, [], ◌∷◌, map, ltb, if◌then◌else◌,
  ◌==◌, nat_eq, string_eq,
}
use snowflake_trade_pipeline.Prelude.Dict.{Dict, lookup}
use snowflake_trade_pipeline.Deploy.Texts.{append}

abbrev pub Cells : Type 0
Cells = Dict String (Option String)

abbrev pub text_length : String → ℕ
text_length String.[] = 0
text_length (String.◌∷◌ c s) = suc (text_length s)

-- `s[:n]`
unfoldable pub text_take : ℕ → String → String
text_take n String.[] = ""
text_take zero (String.◌∷◌ c s) = ""
text_take (suc n) (String.◌∷◌ c s) = String.◌∷◌ c (text_take n s)

-- `character * n`
unfoldable pub repeated : Char → ℕ → String
repeated c zero = ""
repeated c (suc n) = String.◌∷◌ c (repeated c n)

-- `s.ljust(width)`
unfoldable pub ljust : ℕ → String → String
unfolding repeated
ljust width s = append s (repeated " " (width - text_length s))

-- `s.replace("\n", " ").replace("\t", " ")`
unfoldable pub on_one_line : String → String
on_one_line String.[] = ""
on_one_line (String.◌∷◌ c s) =
    String.◌∷◌ (if code c == b'\n' || code c == b'\t' then " " else c) (on_one_line s)

-- `sep.join(texts)`
unfoldable pub join : String → List String → String
join sep [] = ""
join sep (t ∷ []) = t
join sep (t ∷ (u ∷ ts)) = append t (append sep (join sep (u ∷ ts)))

unfoldable pub cell : ℕ → Option String → String
unfolding on_one_line text_take
cell max_width none = "NULL"
cell max_width (some value) =
    let text = on_one_line value in
    if ltb max_width (text_length text) then append (text_take (max_width - 3) text) "..." else text

-- `cell(row.get(column))`
unfoldable pub cell_at : ℕ → String → Cells → String
unfolding cell lookup
cell_at max_width column row =
    cell max_width (elim (lookup row column) [ none ↦ none | some v ↦ v ])

unfoldable pub widest : ℕ → String → List Cells → ℕ
unfolding cell_at
widest max_width column [] = text_length column
widest max_width column (row ∷ rows) =
    max (text_length (cell_at max_width column row)) (widest max_width column rows)

unfoldable pub width_of : ℕ → List Cells → String → ℕ
unfolding widest
width_of max_width rows column =
    let needed = widest max_width column rows in if ltb needed max_width then needed else max_width

abbrev pub column_gap : String
column_gap = "  "

unfoldable pub header_line : ℕ → List Cells → List String → String
unfolding join ljust width_of
header_line max_width rows columns =
    join column_gap (map (λ column. ljust (width_of max_width rows column) column) columns)

unfoldable pub rule_line : ℕ → List Cells → List String → String
unfolding join repeated width_of
rule_line max_width rows columns =
    join column_gap (map (λ column. repeated "-" (width_of max_width rows column)) columns)

unfoldable pub body_line : ℕ → List Cells → List String → Cells → String
unfolding join ljust width_of cell_at
body_line max_width rows columns row =
    join column_gap (
      map (λ column. ljust (width_of max_width rows column) (cell_at max_width column row)) columns)

-- The lines of the table, with the columns of the first row.
unfoldable pub table_lines : ℕ → List Cells → List String
unfolding header_line rule_line body_line
table_lines max_width [] = "(no rows)" ∷ []
table_lines max_width (first ∷ more) =
    let rows = first ∷ more in
    let columns = map (λ p. p.0) first in
    header_line max_width rows columns
    ∷ rule_line max_width rows columns
    ∷ map (body_line max_width rows columns) rows

unfoldable pub render_table : ℕ → List Cells → String
unfolding table_lines join
render_table max_width rows = join "\n" (table_lines max_width rows)
