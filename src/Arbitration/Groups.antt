-- ===== src/Arbitration/Groups.antt =====
-- The grouping of a batch by trade and version in `_settle_version_arbitration` of
-- ingestion/src/trade_sim/generator.py: each group holds the contenders of its key, in file order.
use snowflake_trade_pipeline.Prelude.{
  ℕ, zero, suc, ◌+◌, ◌≡◌, refl, sym, ap, ◌∙◌, inl, inr, Bool, true, false, ◌&&◌, List, [], ◌∷◌,
  ◌++◌, Option, none, some, arith, if◌then◌else◌, ◌==◌, nat_eq, string_eq, pair_eq, All, ==_apart,
  Bool-cases, get_elem?, length, length-append,
}
use mathlib.Core.Path.{subst}
use mathlib.Core.List.{append_assoc, append-nil}
use snowflake_trade_pipeline.Prelude.Dict.{Dict, lookup, insert, lookup-insert}
use snowflake_trade_pipeline.Schema.{GeneratedEvent}
use snowflake_trade_pipeline.Arbitration.{
  Placed, Key, or_empty, append_to, contender_key, add_contender, contenders, enumerate,
}
use snowflake_trade_pipeline.Arbitration.Positions.{
  IsIncreasing, IsIncreasing-weaken, at_index, IsAt,
}

abbrev pub is_key : Key → Option Key → Bool
is_key k none = false
is_key k (some j) = j == k

-- The contenders of a key among the events listed.
unfoldable pub racing : Key → List Placed → List Placed
racing k [] = []
racing k (x ∷ xs) =
    let rest = racing k xs in if is_key k (contender_key x.1) then x ∷ rest else rest

abbrev pub Groups : Type 0
Groups = Dict Key (List Placed)

abbrev pub members : Groups → Key → List Placed
members d k = or_empty (lookup d k)

members-append_to :
    (d : Groups) (j k : Key) (x : Placed)
    → members (append_to d j x) k ≡ (if j == k then members d k ++ x ∷ [] else members d k)
unfolding append_to
members-append_to d j k x = elim (Bool-cases (j == k)) [
  | inl c ↦
      let same : j ≡ k = (pair_eq.equals_iff j k).0 c in
      rw (lookup-insert d j k (or_empty (lookup d j) ++ x ∷ []), c, same) refl
  | inr c ↦ rw (lookup-insert d j k (or_empty (lookup d j) ++ x ∷ []), c) refl
]

members-added :
    (d : Groups) (k : Key) (x : Placed) (o : Option Key)
    → members (elim o [ none ↦ d | some j ↦ append_to d j x ]) k
      ≡ members d k ++ (if is_key k o then x ∷ [] else [])
members-added d k x none = sym (append-nil (members d k))
members-added d k x (some j) = elim (Bool-cases (j == k)) [
  | inl same ↦ rw same (members-append_to d j k x ∙ rw same refl)
  | inr apart ↦ rw apart (members-append_to d j k x ∙ rw apart (sym (append-nil (members d k))))
]

members-add_contender :
    (d : Groups) (k : Key) (x : Placed)
    → members (add_contender d x) k ≡ members d k ++ racing k (x ∷ [])
unfolding add_contender racing
members-add_contender d k x = members-added d k x (contender_key x.1)

racing-cons :
    (k : Key) (x : Placed) (xs : List Placed) → racing k (x ∷ xs) ≡ racing k (x ∷ []) ++ racing k xs
unfolding racing
racing-cons k x xs = elim (Bool-cases (is_key k (contender_key x.1))) [
  | inl c ↦ rw c refl
  | inr c ↦ rw c refl
]

-- The group of a key holds the contenders of the key.
pub members-contenders :
    (d : Groups) (xs : List Placed) (k : Key)
    → members (contenders d xs) k ≡ members d k ++ racing k xs
unfolding contenders
members-contenders d [] k = unfold racing in sym (append-nil (members d k))
members-contenders d (x ∷ xs) k =
    members-contenders (add_contender d x) xs k
    ∙ ap (λ l. l ++ racing k xs) (members-add_contender d k x)
    ∙ append_assoc (members d k) (racing k (x ∷ [])) (racing k xs)
    ∙ ap (λ l. members d k ++ l) (sym (racing-cons k x xs))

-- No key stands twice.
abbrev pub IsFiled : Groups → Type 0
IsFiled [] = Unit
IsFiled ((k, g) ∷ d) = (lookup d k ≡ none) × IsFiled d

insert-IsFiled : (d : Groups) (k : Key) (g : List Placed) → IsFiled d → IsFiled (insert d k g)
unfolding insert lookup
insert-IsFiled [] k g h = (refl, tt)
insert-IsFiled ((j, f) ∷ d) k g h = elim (Bool-cases (j == k)) [
  | inl c ↦ rw c h
  | inr c ↦ rw c (lookup-insert d k j g ∙ rw (==_apart j k c) h.0, insert-IsFiled d k g h.1)
]

added-IsFiled :
    (d : Groups) (x : Placed) (o : Option Key)
    → IsFiled d
    → IsFiled (elim o [ none ↦ d | some j ↦ append_to d j x ])
unfolding append_to
added-IsFiled d x none h = h
added-IsFiled d x (some k) h = insert-IsFiled d k (or_empty (lookup d k) ++ x ∷ []) h

pub contenders-IsFiled : (d : Groups) (xs : List Placed) → IsFiled d → IsFiled (contenders d xs)
unfolding contenders add_contender
contenders-IsFiled d [] h = h
contenders-IsFiled d (x ∷ xs) h =
    contenders-IsFiled (add_contender d x) xs (added-IsFiled d x (contender_key x.1) h)

pub racing-IsIncreasing :
    (k : Key) (n : ℕ) (xs : List Placed) → IsIncreasing n xs → IsIncreasing n (racing k xs)
unfolding racing
racing-IsIncreasing k n [] s = tt
racing-IsIncreasing k n (x ∷ xs) s = elim (Bool-cases (is_key k (contender_key x.1))) [
  | inl c ↦ rw c (s.0, racing-IsIncreasing k (x.0 + 1) xs s.1)
  | inr c ↦ rw c (racing-IsIncreasing k n xs (IsIncreasing-weaken n (x.0 + 1) xs (omega arith) s.1))
]

pub All-racing {κ} :
    (P : Placed → Type κ) (k : Key) (xs : List Placed) → All P xs → All P (racing k xs)
unfolding racing
All-racing P k [] h = tt
All-racing P k (x ∷ xs) h = elim (Bool-cases (is_key k (contender_key x.1))) [
  | inl c ↦ rw c (h.0, All-racing P k xs h.1)
  | inr c ↦ rw c (All-racing P k xs h.1)
]

pub enumerate-IsIncreasing : (n : ℕ) (es : List GeneratedEvent) → IsIncreasing n (enumerate n es)
unfolding enumerate
enumerate-IsIncreasing n [] = tt
enumerate-IsIncreasing n (e ∷ es) = (omega arith, enumerate-IsIncreasing (n + 1) es)

get_elem?-middle {ℓ} :
    {A : Type ℓ} (before : List A) (e : A) (es : List A)
    → get_elem? (before ++ e ∷ es) (length before) ≡ some e
get_elem?-middle [] e es = refl
get_elem?-middle (x ∷ before) e es = get_elem?-middle before e es

pub enumerate-IsAt :
    (before es : List GeneratedEvent) → All (IsAt (before ++ es)) (enumerate (length before) es)
unfolding enumerate
enumerate-IsAt before [] = tt
enumerate-IsAt before (e ∷ es) = (
  get_elem?-middle before e es,
  subst (λ n. All (IsAt (before ++ e ∷ es)) (enumerate n es)) (length-append before (e ∷ []))
      (subst (λ l. All (IsAt l) (enumerate (length (before ++ e ∷ [])) es))
        (append_assoc before (e ∷ []) es) (enumerate-IsAt (before ++ e ∷ []) es)),
)

pub at_index-enumerate :
    (n i : ℕ) (es : List GeneratedEvent) {e : GeneratedEvent}
    → get_elem? es i ≡ some e
    → at_index (enumerate n es) (n + i) ≡ true
unfolding enumerate at_index
at_index-enumerate n i [] h = absurd cc
at_index-enumerate n zero (e ∷ es) h = ground arith
at_index-enumerate n (suc i) (e ∷ es) h =
    let rest : at_index (enumerate (n + 1) es) (n + suc i) ≡ true =
      subst (λ m. at_index (enumerate (n + 1) es) m ≡ true) (omega arith)
        (at_index-enumerate (n + 1) i es h) in
    ground (arith, rest)

same_event :
    (events : List GeneratedEvent) (x y : Placed)
    → IsAt events x
    → IsAt events y
    → y.0 ≡ x.0
    → y.1 ≡ x.1
same_event events (i, e) (j, f) p q h = cc

-- A place is in the group of its event's key, and in no other.
pub at_index-racing :
    (events : List GeneratedEvent) (k : Key) (x : Placed) (xs : List Placed)
    → IsAt events x
    → All (IsAt events) xs
    → at_index (racing k xs) x.0 ≡ (at_index xs x.0 && is_key k (contender_key x.1))
unfolding racing at_index
at_index-racing events k x [] p h = refl
at_index-racing events k x (y ∷ ys) p h =
    let rest = at_index-racing events k x ys p h.1 in
    elim (Bool-cases (y.0 == x.0)) [
      | inl c ↦
          let same : contender_key y.1 ≡ contender_key x.1 =
            ap contender_key (same_event events x y p h.0 (ground arith)) in
          elim (Bool-cases (is_key k (contender_key x.1))) [
            | inl t ↦ rw (same, t) (ground (arith, c))
            | inr t ↦ rw (same, t) (ground (arith, c, t, rest))
          ]
      | inr c ↦ elim (Bool-cases (is_key k (contender_key y.1))) [
        | inl t ↦ rw t (ground (arith, c, rest))
        | inr t ↦ rw t (ground (arith, c, rest))
      ]
    ]
