-- ===== src/Arbitration/Tallies.antt =====
-- The counts of a manifest that `build_manifest` of ingestion/src/trade_sim/generator.py makes.
use snowflake_trade_pipeline.Prelude.{
  ℕ, zero, suc, ◌+◌, String, ◌≡◌, refl, ap, ◌∙◌, inl, inr, List, [], ◌∷◌, map, ◌==◌, string_eq,
  nat_eq, pair_eq, arith, eq_iff, if◌then◌else◌, length, count_if, Bool-cases,
}
use snowflake_trade_pipeline.Prelude.Dict.{Dict, lookup, lookup-insert}
use snowflake_trade_pipeline.Prelude.Sorting.{lookup-sort_keys}
use snowflake_trade_pipeline.Schema.{GeneratedEvent}
use snowflake_trade_pipeline.Schema.Codecs.{Codec}
use snowflake_trade_pipeline.Arbitration.{
  Key, Placed, Winners, change_at, supersede, supersede_all, all_but_last, sort, run_race,
  run_races, contenders, enumerate, restale, settle, or_zero,
}
use snowflake_trade_pipeline.Arbitration.Manifest.{
  count_up, count_keys, faults_of, codes_of, summarised,
}

length-map {ℓ κ} :
    {A : Type ℓ} {B : Type κ} (f : A → B) (xs : List A) → length (map f xs) ≡ length xs
length-map f [] = refl
length-map f (x ∷ xs) = ap suc (length-map f xs)

length-change_at :
    (f : GeneratedEvent → GeneratedEvent) (i : ℕ) (es : List GeneratedEvent)
    → length (change_at f i es) ≡ length es
unfolding change_at
length-change_at f i [] = refl
length-change_at f zero (e ∷ es) = refl
length-change_at f (suc i) (e ∷ es) = ap suc (length-change_at f i es)

length-supersede_all :
    (xs : List Placed) (es : List GeneratedEvent) → length (supersede_all xs es) ≡ length es
unfolding supersede_all
length-supersede_all [] es = refl
length-supersede_all (x ∷ xs) es =
    length-supersede_all xs (change_at supersede x.0 es) ∙ length-change_at supersede x.0 es

module _ (codec : Codec) where
  length-run_race :
      (k : Key) (competing : List Placed) (s : List GeneratedEvent × Winners)
      → length (run_race codec k competing s).0 ≡ length s.0
  unfolding run_race
  length-run_race k [] s = refl
  length-run_race k (x ∷ xs) (es, winners) =
      length-supersede_all (all_but_last (sort codec (x ∷ xs))) es

  length-run_races :
      (d : Dict Key (List Placed)) (s : List GeneratedEvent × Winners)
      → length (run_races codec d s).0 ≡ length s.0
  unfolding run_races
  length-run_races [] s = refl
  length-run_races ((k, competing) ∷ d) s =
      length-run_races d (run_race codec k competing s) ∙ length-run_race k competing s

  -- Settling keeps every event.
  pub length-settle :
      (events : List GeneratedEvent) (stored : Dict String ℕ)
      → length (settle codec events stored) ≡ length events
  unfolding settle
  length-settle events stored =
      let raced = run_races codec (contenders [] (enumerate 0 events)) (events, []) in
      length-map (restale codec raced.1 stored) raced.0
      ∙ length-run_races (contenders [] (enumerate 0 events)) (events, [])

-- How often a key is in a list.
abbrev pub times : String → List String → ℕ
times k ks = count_if (λ j. j == k) ks

count_up-times :
    (d : Dict String ℕ) (j k : String)
    → or_zero (lookup (count_up d j) k) ≡ or_zero (lookup d k) + (if j == k then 1 else 0)
unfolding count_up
count_up-times d j k = elim (Bool-cases (j == k)) [
  | inl e ↦
      let same : j ≡ k = (eq_iff j k).0 e in
      rw (lookup-insert d j k (or_zero (lookup d j) + 1), e, same) refl
  | inr e ↦ rw (lookup-insert d j k (or_zero (lookup d j) + 1), e) (omega arith)
]

count_keys-times :
    (d : Dict String ℕ) (ks : List String) (k : String)
    → or_zero (lookup (count_keys d ks) k) ≡ or_zero (lookup d k) + times k ks
unfolding count_keys count_up count_if
count_keys-times d [] k = omega arith
count_keys-times d (j ∷ ks) k =
    omega (arith, count_keys-times (count_up d j) ks k, count_up-times d j k)

counted_from_none :
    (ks : List String) (k : String) → or_zero (lookup (count_keys [] ks) k) ≡ times k ks
unfolding lookup
counted_from_none ks k = omega (arith, count_keys-times [] ks k)

-- The histograms of a manifest give for every fault how often it was injected, and for every rule
-- code how often it is expected, and 0 where they have no entry.
pub summarised-AreCounted :
    (batch_ref : String) (events : List GeneratedEvent) (k : String)
    → let manifest = summarised batch_ref events in
      (or_zero (lookup manifest.fault_counts k) ≡ times k (faults_of events))
      × (or_zero (lookup manifest.expected_rule_code_counts k) ≡ times k (codes_of events))
unfolding summarised
summarised-AreCounted batch_ref events k = (
  ap or_zero (lookup-sort_keys (count_keys [] (faults_of events)) k)
      ∙ counted_from_none (faults_of events) k,
  ap or_zero (lookup-sort_keys (count_keys [] (codes_of events)) k)
      ∙ counted_from_none (codes_of events) k,
)
