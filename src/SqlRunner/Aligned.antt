-- ===== src/SqlRunner/Aligned.antt =====
-- The lines of a table that scripts/run_sql.py prints are of one length.
use Prim.Native.Char.{Char}
use snowflake_trade_pipeline.Prelude.{
  ℕ, zero, suc, ◌+◌, ◌-◌, ◌≤◌, String, ◌≡◌, refl, ap, inl, inr, Option, none, some, List, [], ◌∷◌,
  map, ltb, All, All-weaken, Bool-cases, arith, string_eq, not_ltb→le,
}
use snowflake_trade_pipeline.Prelude.Dict.{lookup}
use snowflake_trade_pipeline.Deploy.Texts.{append}
use snowflake_trade_pipeline.SqlRunner.Table.{
  Cells, text_length, text_take, repeated, ljust, on_one_line, join, cell, cell_at, widest,
  width_of, column_gap, header_line, rule_line, body_line, table_lines,
}

text_length-append : (s t : String) → text_length (append s t) ≡ text_length s + text_length t
text_length-append String.[] t = omega arith
text_length-append (String.◌∷◌ c s) t = omega (arith, text_length-append s t)

text_length-repeated : (c : Char) (n : ℕ) → text_length (repeated c n) ≡ n
unfolding repeated
text_length-repeated c zero = refl
text_length-repeated c (suc n) = ap suc (text_length-repeated c n)

text_length-ljust : (w : ℕ) (s : String) → text_length s ≤ w → text_length (ljust w s) ≡ w
unfolding ljust
text_length-ljust w s h = omega (
  arith,
  h,
  text_length-append s (repeated " " (w - text_length s)),
  text_length-repeated " " (w - text_length s),
)

text_length-text_take : (n : ℕ) (s : String) → text_length (text_take n s) ≤ n
unfolding text_take
text_length-text_take n String.[] = omega arith
text_length-text_take zero (String.◌∷◌ c s) = omega arith
text_length-text_take (suc n) (String.◌∷◌ c s) = omega (arith, text_length-text_take n s)

-- A cell is no wider than a column may be.
text_length-cell : (w : ℕ) (v : Option String) → 4 ≤ w → text_length (cell w v) ≤ w
unfolding cell
text_length-cell w none h = h
text_length-cell w (some value) h = elim (Bool-cases (ltb w (text_length (on_one_line value)))) [
  | inl e ↦
      rw (e, cell)
        (omega (
          arith,
          h,
          text_length-append (text_take (w - 3) (on_one_line value)) "...",
          text_length-text_take (w - 3) (on_one_line value),
        ))
  | inr e ↦ rw (e, cell) (not_ltb→le w (text_length (on_one_line value)) e)
]

-- The length of lines of columns of these widths.
abbrev pub joined : List ℕ → ℕ
joined [] = 0
joined (w ∷ []) = w
joined (w ∷ (v ∷ ws)) = w + (2 + joined (v ∷ ws))

text_length-join :
    (f : String → String) (g : String → ℕ) (columns : List String)
    → All (λ c. text_length (f c) ≡ g c) columns
    → text_length (join column_gap (map f columns)) ≡ joined (map g columns)
unfolding join
text_length-join f g [] h = refl
text_length-join f g (c ∷ []) h = h.0
text_length-join f g (c ∷ (d ∷ cs)) h = omega (
  arith,
  h.0,
  text_length-join f g (d ∷ cs) h.1,
  text_length-append (f c) (append column_gap (join column_gap (map f (d ∷ cs)))),
)

All-map {ℓ κ μ} :
    {A : Type ℓ} {B : Type κ} (P : B → Type μ) (f : A → B) (xs : List A)
    → All (λ x. P (f x)) xs
    → All P (map f xs)
All-map P f [] h = tt
All-map P f (x ∷ xs) h = (h.0, All-map P f xs h.1)

All-always {ℓ κ} : {A : Type ℓ} (P : A → Type κ) (xs : List A) → ((x : A) → P x) → All P xs
All-always P [] f = tt
All-always P (x ∷ xs) f = (f x, All-always P xs f)

All-together {ℓ κ μ} :
    {A : Type ℓ} {C : Type κ} (P : C → A → Type μ) (xs : List A)
    → ((c : C) → All (P c) xs)
    → All (λ x. (c : C) → P c x) xs
All-together P [] f = tt
All-together P (x ∷ xs) f = ((λ c. (f c).0), All-together P xs (λ c. (f c).1))

module _ (w : ℕ) (room : 4 ≤ w) where
  fits :
      (n : ℕ) (rows : List Cells) (c : String) → n ≤ widest w c rows → n ≤ w → n ≤ width_of w rows c
  unfolding width_of
  fits n rows c h k = elim (Bool-cases (ltb (widest w c rows) w)) [
    | inl e ↦ rw (e, width_of) h
    | inr e ↦ rw (e, width_of) k
  ]

  column-widest : (rows : List Cells) (c : String) → text_length c ≤ widest w c rows
  unfolding widest
  column-widest [] c = omega arith
  column-widest (row ∷ rows) c = omega (arith, column-widest rows c)

  abbrev AreNarrow : String → ℕ → List Cells → Type 0
  AreNarrow c n = All (λ row. text_length (cell_at w c row) ≤ n)

  cells-widest : (rows : List Cells) (c : String) → AreNarrow c (widest w c rows) rows
  unfolding widest
  cells-widest [] c = tt
  cells-widest (row ∷ rows) c = (
    omega arith,
    All-weaken (λ r. text_length (cell_at w c r) ≤ widest w c rows)
        (λ r. text_length (cell_at w c r) ≤ widest w c (row ∷ rows)) rows (λ r h. omega (arith, h))
        (cells-widest rows c),
  )

  text_length-cell_at : (c : String) (row : Cells) → text_length (cell_at w c row) ≤ w
  unfolding cell_at
  text_length-cell_at c row =
      text_length-cell w (elim (lookup row c) [ none ↦ none | some v ↦ v ]) room

  module _ (rows : List Cells) (columns : List String) where
    abbrev pub line_length : ℕ
    line_length = joined (map (width_of w rows) columns)

    header-aligned :
        All (λ c. text_length c ≤ w) columns
        → text_length (header_line w rows columns) ≡ line_length
    unfolding header_line
    header-aligned short =
        text_length-join (λ c. ljust (width_of w rows c) c) (width_of w rows) columns
          (All-weaken (λ c. text_length c ≤ w)
            (λ c. text_length (ljust (width_of w rows c) c) ≡ width_of w rows c) columns
            (λ c h.
              text_length-ljust (width_of w rows c) c
                (fits (text_length c) rows c (column-widest rows c) h))
            short)

    rule-aligned : text_length (rule_line w rows columns) ≡ line_length
    unfolding rule_line
    rule-aligned =
        text_length-join (λ c. repeated "-" (width_of w rows c)) (width_of w rows) columns
          (All-always _ columns (λ c. text_length-repeated "-" (width_of w rows c)))

    body-aligned :
        (row : Cells)
        → ((c : String) → text_length (cell_at w c row) ≤ widest w c rows)
        → text_length (body_line w rows columns row) ≡ line_length
    unfolding body_line
    body-aligned row h =
        text_length-join (λ c. ljust (width_of w rows c) (cell_at w c row)) (width_of w rows)
          columns
          (All-always _ columns (λ c.
            text_length-ljust (width_of w rows c) (cell_at w c row)
              (fits (text_length (cell_at w c row)) rows c (h c) (text_length-cell_at c row))))

  -- All lines of a table are of one length, if no column's name is longer than a column may be, and
  -- a column may hold at least the four characters of NULL.
  pub table_lines-AreAligned :
      (first : Cells) (more : List Cells)
      → All (λ c. text_length c ≤ w) (map (λ p. p.0) first)
      → All
          (λ line. text_length line ≡ line_length (first ∷ more) (map (λ p. p.0) first))
          (table_lines w (first ∷ more))
  unfolding table_lines
  table_lines-AreAligned first more short =
      let rows = first ∷ more in
      let columns = map (λ p. p.0) first in
      (
        header-aligned rows columns short,
        (
          rule-aligned rows columns,
          All-map (λ line. text_length line ≡ line_length rows columns) (body_line w rows columns)
              rows
              (All-weaken (λ row. (c : String) → text_length (cell_at w c row) ≤ widest w c rows)
                (λ row. text_length (body_line w rows columns row) ≡ line_length rows columns) rows
                (λ row h. body-aligned rows columns row h)
                (All-together (λ c row. text_length (cell_at w c row) ≤ widest w c rows) rows
                  (cells-widest rows))),
        ),
      )
