-- ===== src/Deploy/Quotes.antt =====
-- Comments, literals and dollar-quoted bodies in `split_statements` of
-- scripts/deploy_snowflake_sql.py: none is cut at a semicolon.
use Prim.Native.Char.{Char, code}
use snowflake_trade_pipeline.Prelude.{
  ◌≡◌, ◌≢◌, refl, sym, ap, ◌∙◌, String, Bool, true, false, not, ◌&&◌, ◌==◌, nat_eq, string_eq,
  arith,
}
use snowflake_trade_pipeline.Deploy.{
  Mode, plain, line_comment, block_comment, dollar_quote, single_quote, double_quote, takes_two,
  mode_one, mode_two, ends_statement,
}
use snowflake_trade_pipeline.Deploy.Texts.{append, snoc, append_assoc, append-nil}
use snowflake_trade_pipeline.Deploy.Chunks.{chunks}

abbrev pub opener : Mode → String
opener plain = ""
opener line_comment = "--"
opener block_comment = "/*"
opener dollar_quote = "$$"
opener single_quote = "'"
opener double_quote = "\""

abbrev pub closer : Mode → String
closer plain = ""
closer line_comment = "\n"
closer block_comment = "*/"
closer dollar_quote = "$$"
closer single_quote = "'"
closer double_quote = "\""

-- The character cannot begin the end of what the mode is inside of.
abbrev pub is_inert : Mode → Char → Bool
is_inert plain c = false
is_inert line_comment c = not (code c == b'\n')
is_inert block_comment c = not (code c == b'*')
is_inert dollar_quote c = not (code c == b'$')
is_inert single_quote c = not (code c == b'\'')
is_inert double_quote c = not (code c == b'"')

unfoldable pub all_inert : Mode → String → Bool
all_inert m String.[] = true
all_inert m (String.◌∷◌ c s) = is_inert m c && all_inert m s

-- The text behind a literal does not go on with a quote, which would be an escaped one.
unfoldable pub starts_apart : Mode → String → Bool
starts_apart single_quote (String.◌∷◌ c s) = not (code c == b'\'')
starts_apart _ s = true

inert-takes_two : (m : Mode) (c d : Char) → is_inert m c ≡ true → takes_two m c d ≡ false
unfolding takes_two
inert-takes_two plain c d h = absurd (ground (arith, h))
inert-takes_two line_comment c d h = refl
inert-takes_two block_comment c d h = ground (arith, h)
inert-takes_two dollar_quote c d h = ground (arith, h)
inert-takes_two single_quote c d h = ground (arith, h)
inert-takes_two double_quote c d h = refl

inert-ends_statement : (m : Mode) (c : Char) → is_inert m c ≡ true → ends_statement m c ≡ false
unfolding ends_statement
inert-ends_statement plain c h = absurd (ground (arith, h))
inert-ends_statement line_comment c h = refl
inert-ends_statement block_comment c h = refl
inert-ends_statement dollar_quote c h = refl
inert-ends_statement single_quote c h = refl
inert-ends_statement double_quote c h = refl

inert-mode_one : (m : Mode) (c : Char) → is_inert m c ≡ true → mode_one m c ≡ m
unfolding mode_one
inert-mode_one plain c h = absurd (ground (arith, h))
inert-mode_one line_comment c h = ground (arith, h)
inert-mode_one block_comment c h = refl
inert-mode_one dollar_quote c h = refl
inert-mode_one single_quote c h = ground (arith, h)
inert-mode_one double_quote c h = ground (arith, h)

-- One character that neither ends a statement nor begins a pair is read.
chunks-one :
    (m : Mode) (read : String) (c : Char) (text : String)
    → ((d : Char) (rest : String) → text ≡ String.◌∷◌ d rest → takes_two m c d ≡ false)
    → ends_statement m c ≡ false
    → chunks m read (String.◌∷◌ c text) ≡ chunks (mode_one m c) (snoc read c) text
unfolding chunks
chunks-one m read c String.[] two h = rw h refl
chunks-one m read c (String.◌∷◌ d text) two h = rw (two d text refl, h, chunks) refl

chunks-two :
    (m : Mode) (read : String) (c d : Char) (text : String)
    → takes_two m c d ≡ true
    → chunks m read (String.◌∷◌ c (String.◌∷◌ d text))
      ≡ chunks (mode_two m c) (snoc (snoc read c) d) text
unfolding chunks
chunks-two m read c d text h = rw (h, chunks) refl

chunks-inert :
    (m : Mode) (read : String) (body text : String)
    → all_inert m body ≡ true
    → chunks m read (append body text) ≡ chunks m (append read body) text
unfolding all_inert
chunks-inert m read String.[] text h = ap (λ r. chunks m r text) (sym (append-nil read))
chunks-inert m read (String.◌∷◌ c body) text h =
    let here : is_inert m c ≡ true = ground (arith, h) in
    chunks-one m read c (append body text) (λ d rest e. inert-takes_two m c d here)
      (inert-ends_statement m c here)
    ∙ ap (λ k. chunks k (snoc read c) (append body text)) (inert-mode_one m c here)
    ∙ chunks-inert m (snoc read c) body text (ground (arith, h))
    ∙ ap (λ r. chunks m r text) (append_assoc read (String.◌∷◌ c "") body)

chunks-pair :
    (m n : Mode) (read : String) (c d : Char) (text : String)
    → takes_two m c d ≡ true
    → mode_two m c ≡ n
    → chunks m read (String.◌∷◌ c (String.◌∷◌ d text))
      ≡ chunks n (append read (String.◌∷◌ c (String.◌∷◌ d ""))) text
chunks-pair m n read c d text two e =
    chunks-two m read c d text two
    ∙ ap (λ k. chunks k (snoc (snoc read c) d) text) e
    ∙ ap (λ r. chunks n r text) (append_assoc read (String.◌∷◌ c "") (String.◌∷◌ d ""))

chunks-opener :
    (m : Mode) (read text : String)
    → m ≢ plain
    → chunks plain read (append (opener m) text) ≡ chunks m (append read (opener m)) text
unfolding takes_two mode_one mode_two ends_statement
chunks-opener plain read text h = absurd (h refl)
chunks-opener line_comment read text h = chunks-pair plain line_comment read "-" "-" text refl refl
chunks-opener block_comment read text h =
    chunks-pair plain block_comment read "/" "*" text refl refl
chunks-opener dollar_quote read text h = chunks-pair plain dollar_quote read "$" "$" text refl refl
chunks-opener single_quote read text h = chunks-one plain read "'" text (λ d rest e. refl) refl
chunks-opener double_quote read text h = chunks-one plain read "\"" text (λ d rest e. refl) refl

chunks-closer :
    (m : Mode) (read text : String)
    → m ≢ plain
    → starts_apart m text ≡ true
    → chunks m read (append (closer m) text) ≡ chunks plain (append read (closer m)) text
unfolding takes_two mode_one mode_two ends_statement starts_apart
chunks-closer plain read text h a = absurd (h refl)
chunks-closer line_comment read text h a =
    chunks-one line_comment read "\n" text (λ d rest e. refl) refl
chunks-closer block_comment read text h a =
    chunks-pair block_comment plain read "*" "/" text refl refl
chunks-closer dollar_quote read text h a =
    chunks-pair dollar_quote plain read "$" "$" text refl refl
chunks-closer single_quote read text h a =
    chunks-one single_quote read "'" text
      (λ d rest e. let apart : not (code d == b'\'') ≡ true = rw e at a in ground (arith, apart))
      refl
chunks-closer double_quote read text h a =
    chunks-one double_quote read "\"" text (λ d rest e. refl) refl

abbrev pub quoted : Mode → String → String
quoted m body = append (opener m) (append body (closer m))

-- A comment, a literal or a dollar-quoted body is read whole, whatever semicolons it holds: where
-- nothing is open, the cut goes on behind it as if it had been read before. The body holds no
-- character that begins the closing mark, and the text behind a literal in single quotes does not
-- begin with a quote.
pub chunks-quoted :
    (m : Mode) (read body text : String)
    → m ≢ plain
    → all_inert m body ≡ true
    → starts_apart m text ≡ true
    → chunks plain read (append (quoted m body) text)
      ≡ chunks plain (append read (quoted m body)) text
chunks-quoted m read body text h inert apart =
    ap (λ t. chunks plain read t)
      (append_assoc (opener m) (append body (closer m)) text
        ∙ ap (λ t. append (opener m) t) (append_assoc body (closer m) text))
    ∙ chunks-opener m read (append body (append (closer m) text)) h
    ∙ chunks-inert m (append read (opener m)) body (append (closer m) text) inert
    ∙ chunks-closer m (append (append read (opener m)) body) text h apart
    ∙ ap (λ r. chunks plain r text)
        (append_assoc (append read (opener m)) body (closer m)
          ∙ append_assoc read (opener m) (append body (closer m)))
