-- ===== src/Generator/Pools/Members.antt =====
-- The pools of identifiers as sets: what `append` and `remove` of
-- ingestion/src/trade_sim/generator.py do to membership, and that no identifier stands twice.
use snowflake_trade_pipeline.Prelude.{
  String, ◌≡◌, refl, true, false, not, ◌&&◌, ◌||◌, List, [], ◌∷◌, ◌++◌, arith, eq_iff, ◌==◌,
  string_eq, contains, IsNodup, Bool-cases, inl, inr,
}
use snowflake_trade_pipeline.Result.{ok}
use snowflake_trade_pipeline.Generator.Run.{drop_first, remove_id, discard_id}

pub contains-snoc :
    (xs : List String) (k j : String) → contains (xs ++ k ∷ []) j ≡ (contains xs j || k == j)
unfolding contains
contains-snoc [] k j = ground arith
contains-snoc (x ∷ xs) k j = ground (arith, contains-snoc xs k j)

pub IsNodup-snoc :
    (xs : List String) (k : String) → IsNodup xs → contains xs k ≡ false → IsNodup (xs ++ k ∷ [])
unfolding contains
IsNodup-snoc [] k h absent = (refl, tt)
IsNodup-snoc (x ∷ xs) k h absent = (
  ground (arith, contains-snoc xs k x, eq_iff x k, eq_iff k x),
  IsNodup-snoc xs k h.1 (ground arith),
)

-- Removing an identifier from a pool without repetitions removes it and nothing else.
pub contains-drop_first :
    (xs : List String) (k j : String)
    → IsNodup xs
    → contains (drop_first xs k) j ≡ (contains xs j && not (k == j))
unfolding contains drop_first
contains-drop_first [] k j h = refl
contains-drop_first (x ∷ xs) k j h =
    ground (arith, contains-drop_first xs k j h.1, eq_iff x k, eq_iff x j, eq_iff k j, h.0)

pub IsNodup-drop_first : (xs : List String) (k : String) → IsNodup xs → IsNodup (drop_first xs k)
unfolding contains drop_first
IsNodup-drop_first [] k h = tt
IsNodup-drop_first (x ∷ xs) k h = elim (Bool-cases (x == k)) [
  | inl same ↦ rw same h.1
  | inr other ↦
      rw other (ground (arith, contains-drop_first xs k x h.1), IsNodup-drop_first xs k h.1)
]

drop_first_absent : (xs : List String) (k : String) → contains xs k ≡ false → drop_first xs k ≡ xs
unfolding contains drop_first
drop_first_absent [] k h = refl
drop_first_absent (x ∷ xs) k h = ground (arith, drop_first_absent xs k)

pub discard_id-drop_first : (xs : List String) (k : String) → discard_id xs k ≡ drop_first xs k
unfolding discard_id
discard_id-drop_first xs k = elim (Bool-cases (contains xs k)) [
  | inl there ↦ rw there
  | inr absent ↦ rw (absent, drop_first_absent xs k absent)
]

pub remove_id-ok :
    (xs : List String) (k : String) → contains xs k ≡ true → remove_id xs k ≡ ok (drop_first xs k)
unfolding remove_id
remove_id-ok xs k h = rw h
