-- ===== src/Arbitration/Race.antt =====
-- The same-version race of `_settle_version_arbitration` in ingestion/src/trade_sim/generator.py:
-- which events of a batch are superseded.
use snowflake_trade_pipeline.Prelude.{
  ℕ, zero, suc, String, ◌≡◌, refl, sym, ap, ◌∙◌, inl, inr, Bool, true, false, List, [], ◌∷◌, map,
  Option, none, some, arith, if◌then◌else◌, ◌==◌, ==_apart, ==_refl, ==_sound, nat_eq, string_eq,
  pair_eq, All, All-combine, All-weaken, Bool-cases, Option-cases, get_elem?, contains,
}
use mathlib.Core.Path.{subst}
use snowflake_trade_pipeline.Prelude.Dict.{Dict, lookup}
use snowflake_trade_pipeline.Schema.{GeneratedEvent}
use snowflake_trade_pipeline.Schema.Codecs.{Codec}
use snowflake_trade_pipeline.Arbitration.{
  Placed, Key, Winners, or_empty, contender_key, contenders, enumerate, supersede, sort, run_races,
  restale, restale_as, settle,
}
use snowflake_trade_pipeline.Arbitration.Positions.{IsIncreasing, at_index, IsAt}
use snowflake_trade_pipeline.Arbitration.Latest.{race_lem}
use snowflake_trade_pipeline.Arbitration.Ranking.{at_index-sort, is_beaten}
use snowflake_trade_pipeline.Arbitration.Groups.{
  Groups, racing, members, members-contenders, IsFiled, contenders-IsFiled, racing-IsIncreasing,
  All-racing, enumerate-IsIncreasing, enumerate-IsAt, at_index-enumerate, at_index-racing,
}
use snowflake_trade_pipeline.Arbitration.Losers.{
  revised, at_index-all_but_last, loses, get_elem?-run_races, loses-none, keyed_by, apart_keys,
}

module _ (codec : Codec) (events : List GeneratedEvent) (xs : List Placed) (x : Placed)
    (k : Key) where
  abbrev IsKeyed : Groups → Type 0
  IsKeyed = All (λ p. p.1 ≡ racing p.0 xs)

  elsewhere :
      (j : Key) (g : List Placed)
      → IsAt events x
      → All (IsAt events) xs
      → contender_key x.1 ≡ some k
      → g ≡ racing j xs
      → (j == k) ≡ false
      → at_index g x.0 ≡ false
  elsewhere j g p ps c e apart =
      ap (λ l. at_index l x.0) e
      ∙ at_index-racing events j x xs p ps
      ∙ rw (c, ==_apart j k apart) (ground arith)

  loses-lem :
      (d : Groups)
      → IsAt events x
      → All (IsAt events) xs
      → IsIncreasing 0 xs
      → at_index xs x.0 ≡ true
      → contender_key x.1 ≡ some k
      → IsFiled d
      → IsKeyed d
      → loses codec d x.0 ≡ is_beaten codec x (members d k)
  unfolding loses lookup is_beaten
  loses-lem [] p ps s a c filed keyed = refl
  loses-lem ((j, g) ∷ d) p ps s a c filed keyed = elim (Bool-cases (j == k)) [
    | inl t ↦
        let same : j ≡ k = ==_sound j k t in
        let group : g ≡ racing k xs = rw same at keyed.0 in
        let nobody : lookup d k ≡ none = rw same at filed.0 in
        let here : at_index (racing k xs) x.0 ≡ true =
          at_index-racing events k x xs p ps ∙ rw (c, a, ==_refl k) refl in
        let race =
          race_lem codec events 0 (racing k xs) x (racing-IsIncreasing k 0 xs s)
            (All-racing (IsAt events) k xs ps) p here in
        let rest = loses-none codec d x.0 (
          All-combine (λ q. q.1 ≡ racing q.0 xs) (λ q. (q.0 == k) ≡ false)
            (λ q. at_index q.1 x.0 ≡ false) d (λ q e apart. elsewhere q.0 q.1 p ps c e apart)
            keyed.1 (apart_keys d k nobody)) in
        rw (t, group, rest, race) (ground arith)
    | inr t ↦
        rw
          (
            t,
            at_index-all_but_last (sort codec g) x.0
                (at_index-sort codec g x.0 ∙ elsewhere j g p ps c keyed.0 t),
          )
          (loses-lem d p ps s a c filed.1 keyed.1)
  ]

map-get {ℓ κ} :
    {A : Type ℓ} {B : Type κ} (f : A → B) (xs : List A) (i : ℕ) {x : A}
    → get_elem? xs i ≡ some x
    → get_elem? (map f xs) i ≡ some (f x)
map-get f [] i e = absurd cc
map-get f (y ∷ ys) zero {x} e = let same : y ≡ x = cc in rw same refl
map-get f (y ∷ ys) (suc i) e = map-get f ys i e

restale-superseded :
    (codec : Codec) (w : Winners) (stored : Dict String ℕ) (e : GeneratedEvent)
    → restale codec w stored (supersede e) ≡ supersede e
unfolding restale restale_as supersede contains
restale-superseded codec w stored e = elim (Option-cases e.trade_id) [
  | inl c ↦ rw c refl
  | inr (i, c) ↦ rw c refl
]

module _ (codec : Codec) (events : List GeneratedEvent) where
  abbrev pub groups : Groups
  groups = contenders [] (enumerate 0 events)

  -- The marks that the winners of the races leave behind.
  unfoldable pub winners_of : Winners
  winners_of = (run_races codec groups (events, [])).1

  abbrev pub loses_race : Placed → Option Key → Bool
  loses_race x none = false
  loses_race x (some k) = is_beaten codec x (racing k (enumerate 0 events))

  -- The event takes part in the race of its trade and version, and another one there is later in
  -- business time, or as late and behind it in the file.
  unfoldable pub is_superseded : Placed → Bool
  is_superseded x = loses_race x (contender_key x.1)

  pub groups-keyed : All (λ p. p.1 ≡ racing p.0 (enumerate 0 events)) groups
  unfolding lookup
  groups-keyed =
      keyed_by (λ k. racing k (enumerate 0 events)) groups
        (contenders-IsFiled [] (enumerate 0 events) tt)
        (λ k g found. sym (ap or_empty found) ∙ members-contenders [] (enumerate 0 events) k)

  in_no_group :
      (x : Placed)
      → IsAt events x
      → contender_key x.1 ≡ none
      → All (λ p. at_index p.1 x.0 ≡ false) groups
  in_no_group x p c =
      All-weaken (λ q. q.1 ≡ racing q.0 (enumerate 0 events)) (λ q. at_index q.1 x.0 ≡ false) groups
        (λ q e.
          ap (λ l. at_index l x.0) e
          ∙ at_index-racing events q.0 x (enumerate 0 events) p (enumerate-IsAt [] events)
          ∙ rw c (ground arith))
        groups-keyed

  loses-is_superseded : (x : Placed) → IsAt events x → loses codec groups x.0 ≡ is_superseded x
  unfolding is_superseded lookup
  loses-is_superseded x p = elim (Option-cases (contender_key x.1)) [
    | inl c ↦ loses-none codec groups x.0 (in_no_group x p c) ∙ ap (λ o. loses_race x o) (sym c)
    | inr (k, c) ↦
        loses-lem codec events (enumerate 0 events) x k groups p (enumerate-IsAt [] events)
          (enumerate-IsIncreasing 0 events)
          (subst (λ n. at_index (enumerate 0 events) n ≡ true) (omega arith)
            (at_index-enumerate 0 x.0 events p))
          c (contenders-IsFiled [] (enumerate 0 events) tt) groups-keyed
        ∙ ap (λ l. is_beaten codec x l) (members-contenders [] (enumerate 0 events) k)
        ∙ ap (λ o. loses_race x o) (sym c)
  ]

  -- Every event of a settled batch stands where it stood. It is superseded if it takes part in a
  -- race that another event wins over it, by a later business time, or by its place in the file
  -- on a tie; else it is what the staleness rule makes of it, and no race has changed it.
  pub settle-at :
      (stored : Dict String ℕ) (i : ℕ) (e : GeneratedEvent)
      → get_elem? events i ≡ some e
      → get_elem? (settle codec events stored) i
        ≡ some (if is_superseded (i, e) then supersede e else restale codec winners_of stored e)
  unfolding settle winners_of
  settle-at stored i e h =
      let raced : get_elem? (run_races codec groups (events, [])).0 i
          ≡ some (revised (is_superseded (i, e)) e) =
        get_elem?-run_races codec groups events [] i ∙ rw (h, loses-is_superseded (i, e) h) refl in
      map-get (restale codec winners_of stored) (run_races codec groups (events, [])).0 i raced
      ∙ elim (Bool-cases (is_superseded (i, e))) [
        | inl c ↦ rw c (ap (λ f. some f) (restale-superseded codec winners_of stored e))
        | inr c ↦ rw c refl
      ]
