-- ===== src/Deploy/Substitute.antt =====
-- `re.sub` and `re.findall` of Python for a pattern that is known by what it matches at the start of
-- a text.
use Prim.Native.Char.{Char, code}
use snowflake_trade_pipeline.Prelude.{
  ℕ, zero, suc, String, ◌≡◌, refl, ap, ◌∙◌, Bool, true, false, Option, none, some, List, [], ◌∷◌,
  ◌==◌, nat_eq,
}
use snowflake_trade_pipeline.Deploy.Texts.{append}

-- A match: its one group, and all of its text, which is not empty.
pub record Match : Type 0 where
  pub name : String
  pub text : String

-- The number of characters behind the first.
abbrev pub behind_first : String → ℕ
behind_first String.[] = 0
behind_first (String.◌∷◌ c String.[]) = 0
behind_first (String.◌∷◌ c (String.◌∷◌ d s)) = suc (behind_first (String.◌∷◌ d s))

module _ (find : String → Option Match) where
  -- `pattern.sub(put, s)`, where so many characters are left of a match that was replaced.
  unfoldable pub substitute : (Match → String) → ℕ → String → String
  substitute put skip String.[] = ""
  substitute put (suc skip) (String.◌∷◌ c s) = substitute put skip s
  substitute put zero (String.◌∷◌ c s) = elim (find (String.◌∷◌ c s)) [
    | none ↦ String.◌∷◌ c (substitute put zero s)
    | some m ↦ append (put m) (substitute put (behind_first m.text) s)
  ]

  -- The matches that it replaces.
  unfoldable pub matches : ℕ → String → List Match
  matches skip String.[] = []
  matches (suc skip) (String.◌∷◌ c s) = matches skip s
  matches zero (String.◌∷◌ c s) = elim (find (String.◌∷◌ c s)) [
    | none ↦ matches zero s
    | some m ↦ m ∷ matches (behind_first m.text) s
  ]

  substitute-skip :
      (put : Match → String) (c : Char) (s rest : String)
      → substitute put (behind_first (String.◌∷◌ c s)) (append s rest) ≡ substitute put zero rest
  unfolding substitute
  substitute-skip put c String.[] rest = refl
  substitute-skip put c (String.◌∷◌ d s) rest = substitute-skip put d s rest

  matches-skip :
      (c : Char) (s rest : String)
      → matches (behind_first (String.◌∷◌ c s)) (append s rest) ≡ matches zero rest
  unfolding matches
  matches-skip c String.[] rest = refl
  matches-skip c (String.◌∷◌ d s) rest = matches-skip d s rest

-- A text made of plain characters and slots.
pub data Piece (S : Type 0) : Type 0 where
  plain : Char → Piece S
  slot : S → Piece S

-- How a slot is written, with its name: its first character, and the rest.
module _ {S : Type 0} (first : Char) (name_of tail : S → String) where
  abbrev pub written : S → Match
  written name = record { name = name_of name; text = String.◌∷◌ first (tail name) }

  abbrev pub printed : List (Piece S) → String
  printed [] = ""
  printed (plain c ∷ ps) = String.◌∷◌ c (printed ps)
  printed (slot name ∷ ps) = String.◌∷◌ first (append (tail name) (printed ps))

  abbrev pub filled : (Match → String) → List (Piece S) → String
  filled put [] = ""
  filled put (plain c ∷ ps) = String.◌∷◌ c (filled put ps)
  filled put (slot name ∷ ps) = append (put (written name)) (filled put ps)

  abbrev pub slots : List (Piece S) → List Match
  slots [] = []
  slots (plain c ∷ ps) = slots ps
  slots (slot name ∷ ps) = written name ∷ slots ps

  -- No plain character begins a slot, and the names satisfy the test.
  abbrev pub AreApart : (S → Bool) → List (Piece S) → Type 0
  AreApart is_name [] = Unit
  AreApart is_name (plain c ∷ ps) = ((code c == code first) ≡ false) × AreApart is_name ps
  AreApart is_name (slot name ∷ ps) = (is_name name ≡ true) × AreApart is_name ps

  module _ (find : String → Option Match) (is_name : S → Bool)
      (passes : (c : Char) (s : String)
        → (code c == code first) ≡ false
        → find (String.◌∷◌ c s) ≡ none)
      (takes : (name : S) (rest : String)
        → is_name name ≡ true
        → find (String.◌∷◌ first (append (tail name) rest)) ≡ some (written name)) where
    pub substitute-printed :
        (put : Match → String) (ps : List (Piece S))
        → AreApart is_name ps
        → substitute find put zero (printed ps) ≡ filled put ps
    unfolding substitute
    substitute-printed put [] h = refl
    substitute-printed put (plain c ∷ ps) h =
        rw (passes c (printed ps) h.0, substitute)
          (ap (λ r. String.◌∷◌ c r) (substitute-printed put ps h.1))
    substitute-printed put (slot name ∷ ps) h =
        rw (takes name (printed ps) h.0, substitute)
          (ap (λ r. append (put (written name)) r)
            (substitute-skip find put first (tail name) (printed ps)
              ∙ substitute-printed put ps h.1))

    pub matches-printed :
        (ps : List (Piece S)) → AreApart is_name ps → matches find zero (printed ps) ≡ slots ps
    unfolding matches
    matches-printed [] h = refl
    matches-printed (plain c ∷ ps) h =
        rw (passes c (printed ps) h.0, matches) (matches-printed ps h.1)
    matches-printed (slot name ∷ ps) h =
        rw (takes name (printed ps) h.0, matches)
          (ap (λ r. written name ∷ r)
            (matches-skip find first (tail name) (printed ps) ∙ matches-printed ps h.1))
