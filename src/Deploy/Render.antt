-- ===== src/Deploy/Render.antt =====
-- `render` of scripts/deploy_snowflake_sql.py, with its pattern `\{\{\s*([a-z_]+)\s*\}\}`, and
-- `apply_placeholders` of scripts/run_sql.py, with its pattern `\{(\w+)\}`. Of `\w` only ASCII is
-- modelled: no other word is a name there.
use Prim.Native.Char.{Char, code}
use snowflake_trade_pipeline.Prelude.{
  is_empty, zero, String, Bool, true, false, not, ◌&&◌, ◌||◌, Option, none, some, ◌∷◌, ltb, ◌==◌,
  nat_eq, string_eq, if◌then◌else◌, keep,
}
use snowflake_trade_pipeline.Prelude.Dict.{Dict, lookup}
use snowflake_trade_pipeline.Result.{system_exit, Result, ok, err}
use snowflake_trade_pipeline.Deploy.Texts.{append, is_space}
use snowflake_trade_pipeline.Deploy.Context.{schema_placeholders}
use snowflake_trade_pipeline.Deploy.Substitute.{Match, substitute, matches}

-- The longest run of such characters at the start, and what follows it.
unfoldable pub span : (Char → Bool) → String → String × String
span p String.[] = ("", "")
span p (String.◌∷◌ c s) =
    let rest = span p s in if p c then (String.◌∷◌ c rest.0, rest.1) else ("", String.◌∷◌ c s)

-- The text is not empty.
abbrev pub has_chars : String → Bool
has_chars String.[] = false
has_chars (String.◌∷◌ c s) = true

-- `[a-z_]`
unfoldable pub is_small : Char → Bool
is_small c = code c == b'_' || (ltb 96 (code c) && ltb (code c) 123)

-- `\w`
unfoldable pub is_word : Char → Bool
unfolding is_small
is_word c =
    is_small c || (ltb 64 (code c) && ltb (code c) 91) || (ltb 47 (code c) && ltb (code c) 58)

-- `\}\}` follows.
unfoldable pub is_closing : String → Bool
is_closing (String.◌∷◌ c (String.◌∷◌ d s)) = code c == b'}' && code d == b'}'
is_closing _ = false

-- With the blanks and the name before them, the last blanks, and what follows.
unfoldable pub closed_by : String → String → String × String → Option Match
unfolding is_closing
closed_by before name (behind, rest) =
    if has_chars name && is_closing rest
    then some record {
      name = name;
      text = append "{{" (append before (append name (append behind "}}")));
    }
    else none

unfoldable pub named_by : String → String × String → Option Match
unfolding closed_by span is_space
named_by before (name, rest) = closed_by before name (span is_space rest)

unfoldable pub spaced_by : String × String → Option Match
unfolding named_by span is_small
spaced_by (before, rest) = named_by before (span is_small rest)

-- A match behind `{{`: blanks, a name, blanks, and `}}`.
unfoldable pub name_between : String → Option Match
unfolding span is_space spaced_by
name_between s = spaced_by (span is_space s)

unfoldable pub placeholder : String → Option Match
unfolding name_between
placeholder (String.◌∷◌ c (String.◌∷◌ d s)) = elim (code c == b'{' && code d == b'{') [
  | true ↦ name_between s
  | false ↦ none
]
placeholder _ = none

unfoldable pub worded_by : String × String → Option Match
worded_by (word, String.[]) = none
worded_by (word, String.◌∷◌ c rest) =
    if has_chars word && code c == b'}'
    then some record { name = word; text = append "{" (append word "}") }
    else none

-- A match behind `{`: a word and `}`.
unfoldable pub word_between : String → Option Match
unfolding span is_word worded_by
word_between s = worded_by (span is_word s)

unfoldable pub word_placeholder : String → Option Match
unfolding word_between
word_placeholder String.[] = none
word_placeholder (String.◌∷◌ c s) = elim (code c == b'{') [ true ↦ word_between s | false ↦ none ]

module _ (context : Dict String String) where
  -- The value of a known name, and the match itself of another.
  unfoldable pub value_of : Match → String
  unfolding lookup
  value_of m = elim (lookup context m.name) [ none ↦ m.text | some v ↦ v ]

  unfoldable pub is_unknown : Match → Bool
  unfolding lookup
  is_unknown m = elim (lookup context m.name) [ none ↦ true | some v ↦ false ]

  unfoldable pub is_blank_value : Match → Bool
  unfolding lookup
  is_blank_value m = elim (lookup context m.name) [ none ↦ false | some v ↦ v == "" ]

  unfoldable pub render : String → Result String
  unfolding substitute matches placeholder value_of is_unknown is_blank_value keep
  render text =
      let found = matches placeholder zero text in
      if not (is_empty (keep is_unknown found))
      then err system_exit
      else if not (is_empty (keep is_blank_value found))
      then err system_exit
      else ok (substitute placeholder value_of zero text)

-- The environment is `os.environ`.
unfoldable pub apply_placeholders : Dict String String → String → String → String
unfolding schema_placeholders substitute word_placeholder value_of
apply_placeholders environ database sql =
    substitute word_placeholder (value_of (("db", database) ∷ schema_placeholders environ)) zero sql
