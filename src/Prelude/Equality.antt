-- ===== src/Prelude/Equality.antt =====
-- Python's `==` and `in`, for every type whose equality the program tests.
use Prim.Native.Nat.{ℕ, compare, Ordering}
use Prim.Native.String.{String}
use mathlib.Core.Path.{◌≡◌, refl}
use mathlib.Core.Logic.{◌↔◌}
use mathlib.Core.Bool.{Bool, true, false, ◌&&◌, ◌||◌}
use mathlib.Core.List.{List, [], ◌∷◌}
use native.Mathlib.Omega.{arith}
use text.Mathlib.Text.{◌==◌ as text_eq}
use text.Mathlib.TextEquality.{eq_iff}

pub record HasEquality {ℓ} (A : Type ℓ) : Type ℓ where
  pub equals : A → A → Bool
  pub equals_iff : (a b : A) → (equals a b ≡ true) ↔ (a ≡ b)

module _ {ℓ} {A : Type ℓ} ⦃e : HasEquality A⦄ where
  infix 50 ◌==◌
  abbrev pub ◌==◌ : A → A → Bool
  a == b = e.equals a b

  pub ==_refl : (a : A) → (a == a) ≡ true
  ==_refl a = (e.equals_iff a a).1 refl

  pub ==_sound : (a b : A) → (a == b) ≡ true → a ≡ b
  ==_sound a b = (e.equals_iff a b).0

  pub ==_apart : (a b : A) → (a == b) ≡ false → (b == a) ≡ false
  ==_apart a b h = ground (arith, h, e.equals_iff a b, e.equals_iff b a)

  -- `x in xs`
  unfoldable pub contains : List A → A → Bool
  contains [] a = false
  contains (x ∷ xs) a = x == a || contains xs a

  -- No entry stands twice.
  abbrev pub IsNodup : List A → Type 0
  IsNodup [] = Unit
  IsNodup (x ∷ xs) = (contains xs x ≡ false) × IsNodup xs

abbrev pub nat_equals : ℕ → ℕ → Bool
nat_equals a b = elim (compare a b) [ Ordering.eq ↦ true | _ ↦ false ]

pub nat_equals_iff : (a b : ℕ) → (nat_equals a b ≡ true) ↔ (a ≡ b)
nat_equals_iff a b = ground arith

instance abbrev pub nat_eq : HasEquality ℕ
nat_eq = record { equals = nat_equals; equals_iff = nat_equals_iff }

instance abbrev pub string_eq : HasEquality String
string_eq = record { equals = text_eq; equals_iff = eq_iff }

module _ {ℓ κ} {A : Type ℓ} {B : Type κ} ⦃e : HasEquality A⦄ ⦃f : HasEquality B⦄ where
  abbrev pub pair_equals : A × B → A × B → Bool
  pair_equals (a, b) (c, d) = e.equals a c && f.equals b d

  pub pair_equals_iff : (p q : A × B) → (pair_equals p q ≡ true) ↔ (p ≡ q)
  pair_equals_iff (a, b) (c, d) = ground (arith, e.equals_iff a c, f.equals_iff b d)

  instance abbrev pub pair_eq : HasEquality (A × B)
  pair_eq = record { equals = pair_equals; equals_iff = pair_equals_iff }
