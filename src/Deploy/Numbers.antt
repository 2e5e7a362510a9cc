-- ===== src/Deploy/Numbers.antt =====
-- The numbers by which `split_statements` in scripts/deploy_snowflake_sql.py reports a statement.
use Prim.Native.Char.{Char}
use snowflake_trade_pipeline.Prelude.{
  ℕ, ◌+◌, ◌≤◌, ◌≡◌, refl, inl, inr, String, List, [], ◌∷◌, ◌++◌, Bool-cases, arith, length,
  length-append, nat_eq,
}
use snowflake_trade_pipeline.Deploy.{
  Statement, Splitter, takes_two, ends_statement, count_line, emit, take_one, take_two, scan,
  at_start, split_statements, is_executable,
}
use snowflake_trade_pipeline.Deploy.Texts.{strip}

-- The statements count from `n` on, and start at lines of at most `last`, in their order.
abbrev pub IsNumbered : ℕ → ℕ → ℕ → List Statement → Type 0
IsNumbered n first last [] = first ≤ last
IsNumbered n first last (t ∷ ts) =
    (t.index ≡ n) × (first ≤ t.line) × IsNumbered (n + 1) t.line last ts

IsNumbered-snoc :
    (n first last : ℕ) (ts : List Statement) (t : Statement)
    → IsNumbered n first last ts
    → t.index ≡ n + length ts
    → last ≤ t.line
    → IsNumbered n first t.line (ts ++ t ∷ [])
IsNumbered-snoc n first last [] t h e l = (omega (arith, e), omega (arith, h, l), omega arith)
IsNumbered-snoc n first last (s ∷ ts) t h e l =
    (h.0, h.1, IsNumbered-snoc (n + 1) s.line last ts t h.2 (omega (arith, e)) l)

IsNumbered-later :
    (n first last more : ℕ) (ts : List Statement)
    → IsNumbered n first last ts
    → last ≤ more
    → IsNumbered n first more ts
IsNumbered-later n first last more [] h l = omega (arith, h, l)
IsNumbered-later n first last more (s ∷ ts) h l =
    (h.0, h.1, IsNumbered-later (n + 1) s.line last more ts h.2 l)

record IsCounting (s : Splitter) : Type 0 where
  pub numbered : IsNumbered 1 1 s.statement_start_line s.statements
  pub next : s.index ≡ 1 + length s.statements
  pub lined : s.statement_start_line ≤ s.line_number

emit-IsCounting : (s : Splitter) → IsCounting s → IsCounting (emit s)
unfolding emit
emit-IsCounting s c = elim (Bool-cases (is_executable (strip s.buffer))) [
  | inl e ↦ rw e record {
    numbered =
        IsNumbered-snoc 1 1 s.statement_start_line s.statements _ c.numbered c.next (omega arith);
    next = omega (arith, c.next, length-append s.statements);
    lined = c.lined;
  }
  | inr e ↦ rw e c
]

emit-line_number : (s : Splitter) → (emit s).line_number ≡ s.line_number
unfolding emit
emit-line_number s = elim (Bool-cases (is_executable (strip s.buffer))) [
  | inl e ↦ rw e refl
  | inr e ↦ rw e refl
]

count_line-grows : (c : Char) (n : ℕ) → n ≤ count_line c n
unfolding count_line
count_line-grows c n = ground arith

take_one-IsCounting : (c : Char) (s : Splitter) → IsCounting s → IsCounting (take_one c s)
unfolding take_one
take_one-IsCounting c s k =
    let grows = count_line-grows c s.line_number in
    let e = emit-IsCounting s k in
    let same = emit-line_number s in
    elim (Bool-cases (ends_statement s.mode c)) [
      | inl h ↦ rw h record {
        numbered =
            IsNumbered-later 1 1 (emit s).statement_start_line (count_line c s.line_number)
              (emit s).statements e.numbered (omega (arith, e.lined, same, grows));
        next = e.next;
        lined = omega arith;
      }
      | inr h ↦
          rw h
            record { numbered = k.numbered; next = k.next; lined = omega (arith, k.lined, grows) }
    ]

take_two-IsCounting : (c d : Char) (s : Splitter) → IsCounting s → IsCounting (take_two c d s)
unfolding take_two
take_two-IsCounting c d s k = record {
  numbered = k.numbered;
  next = k.next;
  lined = omega (arith, k.lined, count_line-grows c s.line_number);
}

scan-IsCounting : (s : Splitter) (text : String) → IsCounting s → IsCounting (scan s text)
unfolding scan
scan-IsCounting s String.[] k = emit-IsCounting s k
scan-IsCounting s (String.◌∷◌ c String.[]) k =
    emit-IsCounting (take_one c s) (take_one-IsCounting c s k)
scan-IsCounting s (String.◌∷◌ c (String.◌∷◌ d text)) k = elim (Bool-cases (takes_two s.mode c d)) [
  | inl two ↦ rw (two, scan) (scan-IsCounting (take_two c d s) text (take_two-IsCounting c d s k))
  | inr one ↦
      rw (one, scan)
        (scan-IsCounting (take_one c s) (String.◌∷◌ d text) (take_one-IsCounting c s k))
]

-- The statements of a script are numbered from 1 on without a gap, and the lines by which they are
-- reported do not go back.
pub split_statements-IsNumbered :
    (sql : String) → IsNumbered 1 1 (scan at_start sql).statement_start_line (split_statements sql)
unfolding split_statements
split_statements-IsNumbered sql =
    (scan-IsCounting at_start sql
      record { numbered = omega arith; next = omega arith; lined = omega arith }).numbered
