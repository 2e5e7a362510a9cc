-- ===== src/Arbitration/Losers.antt =====
-- The events that the races of `_settle_version_arbitration` in
-- ingestion/src/trade_sim/generator.py mark as superseded, by their positions in the batch.
use snowflake_trade_pipeline.Prelude.{
  ℕ, zero, suc, ◌≡◌, refl, ap, ◌∙◌, inl, inr, Bool, true, false, ◌||◌, List, [], ◌∷◌, Option, none,
  some, arith, ◌==◌, ==_refl, ==_sound, nat_eq, string_eq, pair_eq, All, Bool-cases, get_elem?,
}
use snowflake_trade_pipeline.Prelude.Dict.{lookup}
use snowflake_trade_pipeline.Schema.{GeneratedEvent}
use snowflake_trade_pipeline.Schema.Codecs.{Codec}
use snowflake_trade_pipeline.Arbitration.{
  Placed, Key, Winners, supersede, change_at, supersede_all, all_but_last, sort, run_race,
  run_races,
}
use snowflake_trade_pipeline.Arbitration.Positions.{at_index}
use snowflake_trade_pipeline.Arbitration.Ranking.{at_index-sort}
use snowflake_trade_pipeline.Arbitration.Groups.{Groups, IsFiled}

-- An event, superseded or not.
abbrev pub revised : Bool → GeneratedEvent → GeneratedEvent
revised true e = supersede e
revised false e = e

abbrev revised_option : Bool → Option GeneratedEvent → Option GeneratedEvent
revised_option b none = none
revised_option b (some e) = some (revised b e)

revised_twice :
    (a b : Bool) (o : Option GeneratedEvent)
    → revised_option a (revised_option b o) ≡ revised_option (b || a) o
unfolding supersede
revised_twice a b none = refl
revised_twice true true (some e) = refl
revised_twice true false (some e) = refl
revised_twice false true (some e) = refl
revised_twice false false (some e) = refl

revised_none : (o : Option GeneratedEvent) → o ≡ revised_option false o
revised_none none = refl
revised_none (some e) = refl

get_elem?-change_at :
    (i j : ℕ) (es : List GeneratedEvent)
    → get_elem? (change_at supersede i es) j ≡ revised_option (i == j) (get_elem? es j)
unfolding change_at
get_elem?-change_at i j [] = refl
get_elem?-change_at zero zero (e ∷ es) = refl
get_elem?-change_at zero (suc j) (e ∷ es) =
    let apart : false ≡ (0 == suc j) = ground arith in
    revised_none (get_elem? es j) ∙ ap (λ b. revised_option b (get_elem? es j)) apart
get_elem?-change_at (suc i) zero (e ∷ es) =
    let apart : false ≡ (suc i == 0) = ground arith in ap (λ b. revised_option b (some e)) apart
get_elem?-change_at (suc i) (suc j) (e ∷ es) =
    get_elem?-change_at i j es ∙ ap (λ b. revised_option b (get_elem? es j)) (ground arith)

get_elem?-supersede_all :
    (xs : List Placed) (es : List GeneratedEvent) (i : ℕ)
    → get_elem? (supersede_all xs es) i ≡ revised_option (at_index xs i) (get_elem? es i)
unfolding supersede_all at_index
get_elem?-supersede_all [] es i = revised_none (get_elem? es i)
get_elem?-supersede_all (x ∷ xs) es i =
    get_elem?-supersede_all xs (change_at supersede x.0 es) i
    ∙ ap (λ o. revised_option (at_index xs i) o) (get_elem?-change_at x.0 i es)
    ∙ revised_twice (at_index xs i) (x.0 == i) (get_elem? es i)

pub at_index-all_but_last :
    (xs : List Placed) (i : ℕ) → at_index xs i ≡ false → at_index (all_but_last xs) i ≡ false
unfolding at_index all_but_last
at_index-all_but_last [] i h = refl
at_index-all_but_last (x ∷ []) i h = refl
at_index-all_but_last (x ∷ (y ∷ ys)) i h = ground (arith, h, at_index-all_but_last (y ∷ ys) i)

module _ (codec : Codec) where
  -- The event at position `i` loses one of the races.
  unfoldable pub loses : Groups → ℕ → Bool
  loses [] i = false
  loses ((k, g) ∷ d) i = at_index (all_but_last (sort codec g)) i || loses d i

  get_elem?-run_race :
      (k : Key) (g : List Placed) (es : List GeneratedEvent) (w : Winners) (i : ℕ)
      → get_elem? (run_race codec k g (es, w)).0 i
        ≡ revised_option (at_index (all_but_last (sort codec g)) i) (get_elem? es i)
  unfolding run_race sort all_but_last at_index
  get_elem?-run_race k [] es w i = revised_none (get_elem? es i)
  get_elem?-run_race k (x ∷ xs) es w i =
      get_elem?-supersede_all (all_but_last (sort codec (x ∷ xs))) es i

  pub get_elem?-run_races :
      (d : Groups) (es : List GeneratedEvent) (w : Winners) (i : ℕ)
      → get_elem? (run_races codec d (es, w)).0 i ≡ revised_option (loses d i) (get_elem? es i)
  unfolding run_races loses
  get_elem?-run_races [] es w i = revised_none (get_elem? es i)
  get_elem?-run_races ((k, g) ∷ d) es w i =
      let s = run_race codec k g (es, w) in
      get_elem?-run_races d s.0 s.1 i
      ∙ ap (λ o. revised_option (loses d i) o) (get_elem?-run_race k g es w i)
      ∙ revised_twice (loses d i) (at_index (all_but_last (sort codec g)) i) (get_elem? es i)

  -- Who is in none of the groups loses no race.
  pub loses-none : (d : Groups) (i : ℕ) → All (λ p. at_index p.1 i ≡ false) d → loses d i ≡ false
  unfolding loses
  loses-none [] i h = refl
  loses-none ((k, g) ∷ d) i h = ground (
    arith,
    loses-none d i h.1,
    at_index-all_but_last (sort codec g) i (at_index-sort codec g i ∙ h.0),
  )

pub keyed_by :
    (f : Key → List Placed) (d : Groups)
    → IsFiled d
    → ((k : Key) (g : List Placed) → lookup d k ≡ some g → g ≡ f k)
    → All (λ p. p.1 ≡ f p.0) d
unfolding lookup
keyed_by f [] h all = tt
keyed_by f ((k, g) ∷ d) h all = (
  all k g (rw (==_refl k) refl),
  keyed_by f d h.1 (λ j e found. all j e (elim (Bool-cases (k == j)) [
    | inl c ↦ let same : k ≡ j = ==_sound k j c in absurd (let none_at = rw same at h.0 in cc)
    | inr c ↦ rw c found
  ])),
)

pub apart_keys : (d : Groups) (k : Key) → lookup d k ≡ none → All (λ p. (p.0 == k) ≡ false) d
unfolding lookup
apart_keys [] k h = tt
apart_keys ((j, g) ∷ d) k h = elim (Bool-cases (j == k)) [
  | inl c ↦ let found : some g ≡ none = rw c at h in absurd cc
  | inr c ↦ let later : lookup d k ≡ none = rw c at h in (c, apart_keys d k later)
]
