-- ===== src/Deploy/Templates.antt =====
-- What `render` of scripts/deploy_snowflake_sql.py and `apply_placeholders` of scripts/run_sql.py
-- make of a text whose placeholders are known.
use Prim.Native.Char.{Char}
use snowflake_trade_pipeline.Prelude.{
  String, ◌≡◌, refl, ap, ◌∙◌, Bool, true, false, ◌&&◌, some, nat_eq, string_eq, arith,
}
use snowflake_trade_pipeline.Deploy.Texts.{append, append_assoc, is_space}
use snowflake_trade_pipeline.Deploy.Substitute.{written}
use snowflake_trade_pipeline.Deploy.Render.{
  span, is_small, is_word, is_closing, has_chars, closed_by, named_by, spaced_by, worded_by,
  name_between, placeholder, word_between, word_placeholder,
}

-- A name made of such characters, and not empty.
abbrev pub all_chars : (Char → Bool) → String → Bool
all_chars p String.[] = true
all_chars p (String.◌∷◌ c s) = p c && all_chars p s

abbrev pub is_name : (Char → Bool) → String → Bool
is_name p String.[] = false
is_name p (String.◌∷◌ c s) = p c && all_chars p s

both_true : (a b : Bool) → (a && b) ≡ true → (a ≡ true) × (b ≡ true)
both_true a b h = ground arith

span-append :
    (p : Char → Bool) (s : String) (c : Char) (rest : String)
    → all_chars p s ≡ true
    → p c ≡ false
    → span p (append s (String.◌∷◌ c rest)) ≡ (s, String.◌∷◌ c rest)
unfolding span
span-append p String.[] c rest h e = rw (e, span) refl
span-append p (String.◌∷◌ d s) c rest h e =
    let parts = both_true (p d) (all_chars p s) h in
    rw (parts.0, span-append p s c rest parts.1 e) refl

is_small-is_space : (c : Char) → is_small c ≡ true → is_space c ≡ false
unfolding is_small is_space
is_small-is_space c h = ground arith

is_space-is_small : (c : Char) → is_space c ≡ true → is_small c ≡ false
unfolding is_small is_space
is_space-is_small c h = ground arith

-- A name between blanks, of which there may be none
pub record Slot : Type 0 where
  pub before : String
  pub name : String
  pub behind : String

abbrev pub name_of : Slot → String
name_of s = s.name

abbrev pub is_slot : Slot → Bool
is_slot s = all_chars is_space s.before && is_name is_small s.name && all_chars is_space s.behind

-- `{{ name }}` with these blanks, behind its first character
abbrev pub spaced : Slot → String
spaced s = append "{" (append s.before (append s.name (append s.behind "}}")))

-- A name as it stands
abbrev pub itself : String → String
itself name = name

-- `{name}`, behind its first character
abbrev pub tight : String → String
tight name = append name "}"

span-name :
    (name behind rest : String)
    → is_name is_small name ≡ true
    → all_chars is_space behind ≡ true
    → span is_small (append name (append behind (append "}}" rest)))
      ≡ (name, append behind (append "}}" rest))
unfolding is_small
span-name String.[] behind rest h b = absurd cc
span-name (String.◌∷◌ c s) String.[] rest h b =
    span-append is_small (String.◌∷◌ c s) "}" (append "}" rest) h refl
span-name (String.◌∷◌ c s) (String.◌∷◌ d t) rest h b =
    span-append is_small (String.◌∷◌ c s) d (append t (append "}}" rest)) h
      (is_space-is_small d (both_true (is_space d) (all_chars is_space t) b).0)

span-before :
    (before name rest : String)
    → all_chars is_space before ≡ true
    → is_name is_small name ≡ true
    → span is_space (append before (append name rest)) ≡ (before, append name rest)
span-before before String.[] rest b h = absurd cc
span-before before (String.◌∷◌ c s) rest b h =
    span-append is_space before c (append s rest) b
      (is_small-is_space c (both_true (is_small c) (all_chars is_small s) h).0)

has_name : (name : String) → is_name is_small name ≡ true → has_chars name ≡ true
has_name String.[] h = absurd cc
has_name (String.◌∷◌ c s) h = refl

slot-joined :
    (s : Slot) (rest : String)
    → append (append s.before (append s.name (append s.behind "}}"))) rest
      ≡ append s.before (append s.name (append s.behind (append "}}" rest)))
slot-joined s rest =
    append_assoc s.before (append s.name (append s.behind "}}")) rest
    ∙ ap (append s.before) (
        append_assoc s.name (append s.behind "}}") rest
        ∙ ap (append s.name) (append_assoc s.behind "}}" rest))

pub placeholder-takes :
    (s : Slot) (rest : String)
    → is_slot s ≡ true
    → placeholder (String.◌∷◌ "{" (append (spaced s) rest)) ≡ some (written "{" name_of spaced s)
unfolding placeholder name_between spaced_by named_by closed_by is_closing
placeholder-takes s rest h =
    let parts =
      both_true (all_chars is_space s.before && is_name is_small s.name)
        (all_chars is_space s.behind) h in
    let front = both_true (all_chars is_space s.before) (is_name is_small s.name) parts.0 in
    let more = append s.behind (append "}}" rest) in
    let blanks : span is_space more ≡ (s.behind, append "}}" rest) =
      span-append is_space s.behind "}" (append "}" rest) parts.1 (unfold is_space in refl) in
    ap name_between (slot-joined s rest)
    ∙ ap spaced_by (span-before s.before s.name more front.0 front.1)
    ∙ ap (named_by s.before) (span-name s.name s.behind rest front.1 parts.1)
    ∙ ap (closed_by s.before s.name) blanks
    ∙ (rw (has_name s.name front.1) refl)

pub word_placeholder-takes :
    (name rest : String)
    → is_name is_word name ≡ true
    → word_placeholder (String.◌∷◌ "{" (append (tight name) rest))
      ≡ some (written "{" itself tight name)
unfolding word_placeholder word_between worded_by
word_placeholder-takes String.[] rest h = absurd cc
word_placeholder-takes (String.◌∷◌ c s) rest h =
    let name : String = String.◌∷◌ c s in
    let named : span is_word (append (append name "}") rest) ≡ (name, append "}" rest) =
      ap (span is_word) (append_assoc name "}" rest) ∙ span-append is_word name "}" rest h refl in
    ap worded_by named
