-- ===== src/Deploy/Filling.antt =====
-- When `render` of scripts/deploy_snowflake_sql.py returns, and what; and `apply_placeholders` of
-- scripts/run_sql.py.
use Prim.Native.Char.{Char, code}
use snowflake_trade_pipeline.Prelude.{
  is_empty, is_empty-keep, zero, String, ◌≡◌, refl, sym, ap, ◌∙◌, ◌↔◌, inl, inr, Bool, true, false,
  not, none, some, List, [], ◌∷◌, All, ◌==◌, nat_eq, string_eq, if◌then◌else◌, keep, Option-cases,
}
use snowflake_trade_pipeline.Prelude.Dict.{Dict, lookup}
use snowflake_trade_pipeline.Result.{system_exit, Result, ok, err}
use snowflake_trade_pipeline.Deploy.Context.{schema_placeholders}
use snowflake_trade_pipeline.Deploy.Substitute.{
  Match, substitute, Piece, printed, filled, slots, AreApart, substitute-printed, matches-printed,
}
use snowflake_trade_pipeline.Deploy.Render.{
  is_word, placeholder, word_placeholder, value_of, is_unknown, is_blank_value, render,
  apply_placeholders,
}
use snowflake_trade_pipeline.Deploy.Templates.{
  is_name, spaced, tight, Slot, name_of, is_slot, itself, placeholder-takes, word_placeholder-takes,
}

placeholder-passes :
    (c : Char) (s : String) → (code c == b'{') ≡ false → placeholder (String.◌∷◌ c s) ≡ none
unfolding placeholder
placeholder-passes c String.[] e = refl
placeholder-passes c (String.◌∷◌ d s) e = rw (e, placeholder) refl

word_placeholder-passes :
    (c : Char) (s : String) → (code c == b'{') ≡ false → word_placeholder (String.◌∷◌ c s) ≡ none
unfolding word_placeholder
word_placeholder-passes c s e = rw (e, word_placeholder) refl

module _ (context : Dict String String) where
  -- Every name has a value in the context, which is not empty.
  abbrev pub AreDefined : List Match → Type 0
  AreDefined = All (λ m. (v : String) × (lookup context m.name ≡ some v) × ((v == "") ≡ false))

  Defined-free :
      (ms : List Match)
      → AreDefined ms
      → All (λ m. is_unknown context m ≡ false) ms × All (λ m. is_blank_value context m ≡ false) ms
  unfolding is_unknown is_blank_value
  Defined-free [] h = (tt, tt)
  Defined-free (m ∷ ms) h =
      let (v, found, full) = h.0 in
      let rest = Defined-free ms h.1 in
      ((rw (found, is_unknown) refl, rest.0), (rw (found, is_blank_value) full, rest.1))

  free-AreDefined :
      (ms : List Match)
      → All (λ m. is_unknown context m ≡ false) ms
      → All (λ m. is_blank_value context m ≡ false) ms
      → AreDefined ms
  unfolding is_unknown is_blank_value
  free-AreDefined [] h k = tt
  free-AreDefined (m ∷ ms) h k = elim (Option-cases (lookup context m.name)) [
    | inl e ↦ absurd (cc (rw (e, is_unknown) at h.0))
    | inr (v, e) ↦ ((v, e, rw (e, is_blank_value) at k.0), free-AreDefined ms h.1 k.1)
  ]

  chosen :
      (a b : Bool) (text t : String)
      → ((if not a then err system_exit else if not b then err system_exit else ok text) ≡ ok t)
        ↔ ((a ≡ true) × (b ≡ true) × (text ≡ t))
  chosen true true text t = ((λ h. (refl, refl, cc (h))), (λ h. ap ok h.2))
  chosen true false text t = ((λ h. absurd (cc (h))), (λ h. absurd (cc (h.1))))
  chosen false b text t = ((λ h. absurd (cc (h))), (λ h. absurd (cc (h.0))))

  abbrev decided : List Match → String → Result String
  decided found text =
      if not (is_empty (keep (is_unknown context) found))
      then err system_exit
      else if not (is_empty (keep (is_blank_value context) found))
      then err system_exit
      else ok text

  render-printed :
      (ps : List (Piece Slot))
      → AreApart "{" name_of spaced is_slot ps
      → render context (printed "{" name_of spaced ps)
        ≡ decided (slots "{" name_of spaced ps) (filled "{" name_of spaced (value_of context) ps)
  unfolding render
  render-printed ps h =
      let text = printed "{" name_of spaced ps in
      ap (λ found. decided found (substitute placeholder (value_of context) zero text))
        (matches-printed "{" name_of spaced placeholder is_slot placeholder-passes placeholder-takes
          ps h)
      ∙ ap (decided (slots "{" name_of spaced ps)) (
          substitute-printed "{" name_of spaced placeholder is_slot placeholder-passes
            placeholder-takes (value_of context) ps h)

  -- A template returns a text from `render` exactly if each of its placeholders has a value in the
  -- context that is not empty, and the text is the template with these values filled in. A
  -- placeholder is a name of small letters and underscores between double braces, with any blanks
  -- before and behind it or none, and no plain character is an opening brace.
  pub render-filled :
      (ps : List (Piece Slot)) (t : String)
      → AreApart "{" name_of spaced is_slot ps
      → (render context (printed "{" name_of spaced ps) ≡ ok t) ↔ (
          AreDefined (slots "{" name_of spaced ps)
          × (filled "{" name_of spaced (value_of context) ps ≡ t))
  render-filled ps t h =
      let ms = slots "{" name_of spaced ps in
      let same = render-printed ps h in
      let choice =
        chosen (is_empty (keep (is_unknown context) ms))
          (is_empty (keep (is_blank_value context) ms))
          (filled "{" name_of spaced (value_of context) ps) t in
      let unknown = is_empty-keep (is_unknown context) ms in
      let blank = is_empty-keep (is_blank_value context) ms in
      (
        (λ e.
            let (a, b, c) = choice.0 (sym same ∙ e) in
            (free-AreDefined ms (unknown.0 a) (blank.0 b), c)),
        (λ k.
            let free = Defined-free ms k.0 in
            same ∙ choice.1 (unknown.1 free.0, blank.1 free.1, k.1)),
      )

-- Ad-hoc SQL is sent with every placeholder that is known filled in, and every other left as it is
-- written, where no plain character is an opening brace.
pub apply_placeholders-filled :
    (environ : Dict String String) (database : String) (ps : List (Piece String))
    → AreApart "{" itself tight (is_name is_word) ps
    → apply_placeholders environ database (printed "{" itself tight ps)
      ≡ filled "{" itself tight (value_of (("db", database) ∷ schema_placeholders environ)) ps
unfolding apply_placeholders
apply_placeholders-filled environ database ps h =
    substitute-printed "{" itself tight word_placeholder (is_name is_word) word_placeholder-passes
      word_placeholder-takes _ ps h
