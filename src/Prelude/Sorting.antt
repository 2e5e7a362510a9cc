-- ===== src/Prelude/Sorting.antt =====
-- Dictionaries with texts for keys in the order of their keys, as `sorted(d.items())` and
-- `json.dumps(…, sort_keys=True)` put them.
use Prim.Native.Nat.{Ordering}
use Prim.Native.String.{String, compare}
use mathlib.Core.Path.{◌≡◌, refl, ap, ◌∙◌}
use mathlib.Core.Logic.{inl, inr}
use mathlib.Core.Bool.{Bool, true, false}
use mathlib.Core.Option.{some}
use mathlib.Core.List.{[], ◌∷◌, map}
use native.Mathlib.Omega.{arith}
use text.Mathlib.TextEquality.{eq_iff}
use snowflake_trade_pipeline.Prelude.Tests.{if◌then◌else◌, Bool-cases}
use snowflake_trade_pipeline.Prelude.Equality.{◌==◌, string_eq}
use snowflake_trade_pipeline.Prelude.Dict.{Dict, lookup}

abbrev pub is_before : String → String → Bool
is_before a b = elim (compare a b) [ Ordering.lt ↦ true | _ ↦ false ]

before_apart : (a b : String) → is_before a b ≡ true → (a == b) ≡ false
before_apart a b h = ground arith

module _ {ℓ} {V : Type ℓ} where
  unfoldable pub insert_key : String → V → Dict String V → Dict String V
  insert_key k v [] = (k, v) ∷ []
  insert_key k v ((j, w) ∷ d) =
      let rest = insert_key k v d in if is_before j k then (j, w) ∷ rest else (k, v) ∷ (j, w) ∷ d

  unfoldable pub sort_keys : Dict String V → Dict String V
  unfolding insert_key
  sort_keys [] = []
  sort_keys ((k, v) ∷ d) = insert_key k v (sort_keys d)

  lookup-insert_key :
      (k j : String) (v : V) (d : Dict String V)
      → lookup (insert_key k v d) j ≡ (if k == j then some v else lookup d j)
  unfolding insert_key lookup
  lookup-insert_key k j v [] = refl
  lookup-insert_key k j v ((i, w) ∷ d) = elim (Bool-cases (is_before i k)) [
    | inl e ↦ rw e (
        ground (
          arith,
          lookup-insert_key k j v d,
          before_apart i k e,
          eq_iff i k,
          eq_iff i j,
          eq_iff k j,
        ))
    | inr e ↦ rw e refl
  ]

  pub lookup-sort_keys : (d : Dict String V) (j : String) → lookup (sort_keys d) j ≡ lookup d j
  unfolding sort_keys lookup
  lookup-sort_keys [] j = refl
  lookup-sort_keys ((k, v) ∷ d) j =
      lookup-insert_key k j v (sort_keys d)
      ∙ ap (λ r. if k == j then some v else r) (lookup-sort_keys d j)

module _ {ℓ κ} {V : Type ℓ} {W : Type κ} (f : V → W) where
  abbrev mapped : Dict String V → Dict String W
  mapped d = map (λ p. (p.0, f p.1)) d

  insert_key-map :
      (k : String) (v : V) (d : Dict String V)
      → insert_key k (f v) (mapped d) ≡ mapped (insert_key k v d)
  unfolding insert_key
  insert_key-map k v [] = refl
  insert_key-map k v ((j, w) ∷ d) = elim (Bool-cases (is_before j k)) [
    | inl e ↦ rw e (ap (λ r. (j, f w) ∷ r) (insert_key-map k v d))
    | inr e ↦ rw e refl
  ]

  -- Values can be changed before the keys are sorted or behind it.
  pub sort_keys-map : (d : Dict String V) → sort_keys (mapped d) ≡ mapped (sort_keys d)
  unfolding sort_keys
  sort_keys-map [] = refl
  sort_keys-map ((k, v) ∷ d) =
      ap (insert_key k (f v)) (sort_keys-map d) ∙ insert_key-map k v (sort_keys d)
