-- ===== src/Deploy/Chunks.antt =====
-- The cut of a script by `split_statements` in scripts/deploy_snowflake_sql.py loses nothing.
use Prim.Native.Char.{Char}
use snowflake_trade_pipeline.Prelude.{
  ◌≡◌, refl, sym, ap, ◌∙◌, inl, inr, String, true, false, List, [], ◌∷◌, ◌++◌, map, keep,
  if◌then◌else◌, nat_eq, string_eq, Bool-cases,
}
use native.Mathlib.Omega.{arith}
use text.Mathlib.TextEquality.{Char-path}
use mathlib.Core.List.{append_assoc as concat_assoc, append-nil as concat-nil}
use snowflake_trade_pipeline.Deploy.{
  Statement, Splitter, Mode, plain, takes_two, mode_one, mode_two, ends_statement, emit, take_one,
  take_two, scan, at_start, split_statements, is_executable,
}
use snowflake_trade_pipeline.Deploy.Texts.{append, snoc, strip, append_assoc, append-nil}

-- The pieces between the semicolons at which the script is cut, the text read so far in front.
unfoldable pub chunks : Mode → String → String → List String
chunks m read String.[] = read ∷ []
chunks m read (String.◌∷◌ c String.[]) =
    if ends_statement m c then read ∷ "" ∷ [] else snoc read c ∷ []
chunks m read (String.◌∷◌ c (String.◌∷◌ d text)) = elim (takes_two m c d) [
  | true ↦ chunks (mode_two m c) (snoc (snoc read c) d) text
  | false ↦ elim (ends_statement m c) [
    | true ↦ read ∷ chunks m "" (String.◌∷◌ d text)
    | false ↦ chunks (mode_one m c) (snoc read c) (String.◌∷◌ d text)
  ]
]

-- The pieces with a semicolon in front of each.
unfoldable pub rejoin : List String → String
rejoin [] = ""
rejoin (s ∷ ss) = String.◌∷◌ ";" (append s (rejoin ss))

semicolon : (m : Mode) (c : Char) → ends_statement m c ≡ true → c ≡ ";"
unfolding ends_statement
semicolon plain c h = Char-path c ";" (ground arith)
semicolon Mode.line_comment c h = absurd (ground arith)
semicolon Mode.block_comment c h = absurd (ground arith)
semicolon Mode.dollar_quote c h = absurd (ground arith)
semicolon Mode.single_quote c h = absurd (ground arith)
semicolon Mode.double_quote c h = absurd (ground arith)

append-snoc : (s : String) (c : Char) (t : String) → append (snoc s c) t ≡ append s (String.◌∷◌ c t)
append-snoc s c t = append_assoc s (String.◌∷◌ c "") t

rejoin-one :
    (m : Mode) (read : String) (c : Char)
    → rejoin (chunks m read (String.◌∷◌ c String.[]))
      ≡ String.◌∷◌ ";" (append read (String.◌∷◌ c ""))
unfolding rejoin chunks
rejoin-one m read c = elim (Bool-cases (ends_statement m c)) [
  | inl h ↦ rw h (ap (λ d. String.◌∷◌ ";" (append read (String.◌∷◌ d ""))) (sym (semicolon m c h)))
  | inr h ↦ rw h (ap (λ r. String.◌∷◌ ";" r) (append-nil (snoc read c)))
]

-- The pieces with a semicolon in front of each make up the text with a semicolon in front.
rejoin-chunks :
    (m : Mode) (read text : String)
    → rejoin (chunks m read text) ≡ String.◌∷◌ ";" (append read text)
unfolding rejoin chunks
rejoin-chunks m read String.[] = refl
rejoin-chunks m read (String.◌∷◌ c String.[]) = rejoin-one m read c
rejoin-chunks m read (String.◌∷◌ c (String.◌∷◌ d text)) = elim (Bool-cases (takes_two m c d)) [
  | inl two ↦
      rw (two, rejoin, chunks)
        (rejoin-chunks (mode_two m c) (snoc (snoc read c) d) text
          ∙ ap (λ r. String.◌∷◌ ";" r)
              (append-snoc (snoc read c) d text ∙ append-snoc read c (String.◌∷◌ d text)))
  | inr one ↦ elim (Bool-cases (ends_statement m c)) [
    | inl h ↦
        rw (one, h, rejoin, chunks)
          (ap (λ r. String.◌∷◌ ";" (append read r))
            (rejoin-chunks m "" (String.◌∷◌ d text)
              ∙ ap (λ e. String.◌∷◌ e (String.◌∷◌ d text)) (sym (semicolon m c h))))
    | inr h ↦
        rw (one, h, rejoin, chunks)
          (rejoin-chunks (mode_one m c) (snoc read c) (String.◌∷◌ d text)
            ∙ ap (λ r. String.◌∷◌ ";" r) (append-snoc read c (String.◌∷◌ d text)))
  ]
]

abbrev texts : Splitter → List String
texts s = map (λ t. t.sql) s.statements

-- What the code keeps of the pieces.
unfoldable pub selected : List String → List String
unfolding keep is_executable strip
selected pieces = keep is_executable (map strip pieces)

map-concat :
    (xs ys : List Statement)
    → map (λ t. t.sql) (xs ++ ys) ≡ map (λ t. t.sql) xs ++ map (λ t. t.sql) ys
map-concat [] ys = refl
map-concat (x ∷ xs) ys = ap (λ r. x.sql ∷ r) (map-concat xs ys)

selected-more :
    (p : String) (ps : List String) → selected (p ∷ ps) ≡ selected (p ∷ []) ++ selected ps
unfolding selected keep
selected-more p ps = elim (Bool-cases (is_executable (strip p))) [
  | inl h ↦ rw h refl
  | inr h ↦ rw h refl
]

texts-emit : (s : Splitter) → texts (emit s) ≡ texts s ++ selected (s.buffer ∷ [])
unfolding emit selected keep
texts-emit s = elim (Bool-cases (is_executable (strip s.buffer))) [
  | inl h ↦ rw h (map-concat s.statements _)
  | inr h ↦ rw h (sym (concat-nil (texts s)))
]

texts-take_one :
    (c : Char) (s : Splitter)
    → ends_statement s.mode c ≡ true
    → texts (take_one c s) ≡ texts s ++ selected (s.buffer ∷ [])
unfolding take_one
texts-take_one c s h = rw h (texts-emit s)

texts-scan_one :
    (s : Splitter) (c : Char)
    → texts (emit (take_one c s))
      ≡ texts s ++ selected (chunks s.mode s.buffer (String.◌∷◌ c String.[]))
unfolding chunks
texts-scan_one s c = elim (Bool-cases (ends_statement s.mode c)) [
  | inl h ↦
      texts-emit (take_one c s)
      ∙ unfold take_one in
        rw (h, selected-more s.buffer ("" ∷ []))
          (ap (λ l. l ++ selected ("" ∷ [])) (texts-emit s)
            ∙ concat_assoc (texts s) (selected (s.buffer ∷ [])) (selected ("" ∷ [])))
  | inr h ↦ texts-emit (take_one c s) ∙ unfold take_one in rw h refl
]

emit-mode : (s : Splitter) (P : Mode → Type 0) → P s.mode → P (emit s).mode
unfolding emit
emit-mode s P h = elim (Bool-cases (is_executable (strip s.buffer))) [
  | inl e ↦ rw e h
  | inr e ↦ rw e h
]

-- What a state has found, and what it is going to find.
abbrev found : Splitter → String → List String
found s text = texts s ++ selected (chunks s.mode s.buffer text)

found-take_two :
    (c d : Char) (s : Splitter) (text : String)
    → found (take_two c d s) text
      ≡ texts s ++ selected (chunks (mode_two s.mode c) (snoc (snoc s.buffer c) d) text)
unfolding take_two
found-take_two c d s text = refl

found-ended :
    (c : Char) (s : Splitter) (text : String)
    → ends_statement s.mode c ≡ true
    → found (take_one c s) text ≡ texts s ++ selected (s.buffer ∷ chunks s.mode "" text)
unfolding take_one
found-ended c s text h =
    let rest = selected (chunks s.mode "" text) in
    rw (h, selected-more s.buffer (chunks s.mode "" text))
      (emit-mode s
        (λ m.
          texts (emit s) ++ selected (chunks m "" text)
          ≡ texts s ++ (selected (s.buffer ∷ []) ++ rest))
        (ap (λ l. l ++ rest) (texts-emit s)
          ∙ concat_assoc (texts s) (selected (s.buffer ∷ [])) rest))

found-read :
    (c : Char) (s : Splitter) (text : String)
    → ends_statement s.mode c ≡ false
    → found (take_one c s) text
      ≡ texts s ++ selected (chunks (mode_one s.mode c) (snoc s.buffer c) text)
unfolding take_one
found-read c s text h = rw h refl

-- The statements of a scan are those found before it, and the pieces of the rest that hold SQL.
texts-scan :
    (s : Splitter) (text : String)
    → texts (scan s text) ≡ texts s ++ selected (chunks s.mode s.buffer text)
unfolding scan chunks
texts-scan s String.[] = texts-emit s
texts-scan s (String.◌∷◌ c String.[]) = texts-scan_one s c
texts-scan s (String.◌∷◌ c (String.◌∷◌ d text)) = elim (Bool-cases (takes_two s.mode c d)) [
  | inl two ↦ rw (two, scan, chunks) (texts-scan (take_two c d s) text ∙ found-take_two c d s text)
  | inr one ↦ elim (Bool-cases (ends_statement s.mode c)) [
    | inl h ↦
        rw (one, h, scan, chunks)
          (texts-scan (take_one c s) (String.◌∷◌ d text) ∙ found-ended c s (String.◌∷◌ d text) h)
    | inr h ↦
        rw (one, h, scan, chunks)
          (texts-scan (take_one c s) (String.◌∷◌ d text) ∙ found-read c s (String.◌∷◌ d text) h)
  ]
]

-- The pieces of a script.
unfoldable pub pieces : String → List String
pieces sql = chunks plain "" sql

-- The script is cut into pieces that, with the semicolons put back, make it up to the letter. The
-- statements are the stripped pieces that `_is_executable` takes for SQL, in their order.
pub split_statements-pieces :
    (sql : String)
    → (rejoin (pieces sql) ≡ String.◌∷◌ ";" sql)
      × (map (λ t. t.sql) (split_statements sql) ≡ keep is_executable (map strip (pieces sql)))
unfolding split_statements pieces selected
split_statements-pieces sql = (rejoin-chunks plain "" sql, texts-scan at_start sql)
