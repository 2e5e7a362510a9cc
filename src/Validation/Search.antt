-- ===== src/Validation/Search.antt =====
-- The inner loop of the search in scripts/validate_dags.py, and the bound on the rounds of the outer
-- one.
use snowflake_trade_pipeline.Prelude.{
  ℕ, ◌+◌, ◌≤◌, ◌≡◌, refl, ◌⊎◌, inl, inr, String, true, false, not, ◌&&◌, ◌||◌, List, [], ◌∷◌,
  length, string_eq, contains, count_if, arith, eq_iff, Bool-cases, All,
}
use snowflake_trade_pipeline.Validation.{Traversal, offer, offer_all}

pub List-cases :
    (xs : List String) → (xs ≡ []) ⊎ ((x : String) × (rest : List String) × (xs ≡ x ∷ rest))
List-cases [] = inl refl
List-cases (x ∷ xs) = inr (x, xs, refl)

pub reachable-offer_all :
    (s : Traversal) (vs : List String) (w : String)
    → contains (offer_all s vs).reachable w ≡ (contains s.reachable w || contains vs w)
unfolding offer_all offer contains
reachable-offer_all s [] w = ground arith
reachable-offer_all s (v ∷ vs) w = ground (arith, reachable-offer_all (offer s v) vs w, eq_iff v w)

pub frontier-offer_all :
    (s : Traversal) (vs : List String) (w : String)
    → contains (offer_all s vs).frontier w
      ≡ (contains s.frontier w || (contains vs w && not (contains s.reachable w)))
unfolding offer_all offer contains
frontier-offer_all s [] w = ground arith
frontier-offer_all s (v ∷ vs) w = ground (arith, frontier-offer_all (offer s v) vs w, eq_iff v w)

-- The tasks that are not reached, counted as often as they are listed.
abbrev pub unseen : List String → List String → ℕ
unseen names reached = count_if (λ v. not (contains reached v)) names

unseen-cons :
    (names reached : List String) (v : String) → unseen names (v ∷ reached) ≤ unseen names reached
unfolding count_if contains
unseen-cons [] reached v = omega arith
unseen-cons (n ∷ names) reached v = ground (arith, unseen-cons names reached v)

pub unseen-new :
    (names reached : List String) (v : String)
    → contains names v ≡ true
    → contains reached v ≡ false
    → unseen names (v ∷ reached) + 1 ≤ unseen names reached
unfolding count_if contains
unseen-new [] reached v h k = ground (arith, h)
unseen-new (n ∷ names) reached v h k =
    ground
      (arith, unseen-new names reached v, unseen-cons names reached v, eq_iff n v, eq_iff v n, h, k)

-- The rounds that are left at most.
abbrev pub work : List String → Traversal → ℕ
work names s = unseen names s.reachable + length s.frontier

work-offer :
    (names : List String) (s : Traversal) (v : String)
    → contains names v ≡ true
    → work names (offer s v) ≤ work names s
unfolding offer
work-offer names s v h = elim (Bool-cases (contains s.reachable v)) [
  | inl e ↦ rw (e, offer) (omega arith)
  | inr e ↦ rw (e, offer) (omega (arith, unseen-new names s.reachable v h e))
]

pub work-offer_all :
    (names : List String) (s : Traversal) (vs : List String)
    → All (λ v. contains names v ≡ true) vs
    → work names (offer_all s vs) ≤ work names s
unfolding offer_all
work-offer_all names s [] h = omega arith
work-offer_all names s (v ∷ vs) h =
    omega (arith, work-offer_all names (offer s v) vs h.1, work-offer names s v h.0)
