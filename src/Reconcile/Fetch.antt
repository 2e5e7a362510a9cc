-- ===== src/Reconcile/Fetch.antt =====
-- `_fetch_adjudicated`, `parse_error_count` and `find_manifests` of
-- ingestion/src/trade_sim/reconcile.py. Which file names a pattern matches is an argument.
use snowflake_trade_pipeline.Prelude.{
  ℕ, zero, suc, ◌-◌, ◌≤◌, String, ◌≡◌, refl, ap, ◌∙◌, Bool, Option, List, [], ◌∷◌, ◌++◌, map,
  length, All, ltb, if◌then◌else◌, nat_eq, string_eq, keep, arith,
}
use snowflake_trade_pipeline.Result.{ok}
use snowflake_trade_pipeline.Deploy.Texts.{append}
use snowflake_trade_pipeline.Deploy.Phases.{concat}
use snowflake_trade_pipeline.Settings.{SnowflakeSettings, dbt_schema}
use snowflake_trade_pipeline.SqlRunner.Table.{join}
use snowflake_trade_pipeline.Session.{
  number, ResultRow, Driver, Action, ◌>>=◌, return, execute, scalar,
}

-- `xs[:n]` and `xs[n:]`
module _ {ℓ} {A : Type ℓ} where
  abbrev pub take : ℕ → List A → List A
  take zero xs = []
  take (suc n) [] = []
  take (suc n) (x ∷ xs) = x ∷ take n xs

  abbrev pub drop : ℕ → List A → List A
  drop zero xs = xs
  drop (suc n) [] = []
  drop (suc n) (x ∷ xs) = drop n xs

  -- The slices from the starts `range(0, len(xs), n)`, on fuel.
  unfoldable pub slices : ℕ → ℕ → List A → List (List A)
  slices zero n xs = []
  slices (suc fuel) n [] = []
  slices (suc fuel) n (x ∷ xs) = take n (x ∷ xs) ∷ slices fuel n (drop n (x ∷ xs))

  unfoldable pub chunked : ℕ → List A → List (List A)
  unfolding slices
  chunked n xs = slices (length xs) n xs

  take-drop : (n : ℕ) (xs : List A) → take n xs ++ drop n xs ≡ xs
  take-drop zero xs = refl
  take-drop (suc n) [] = refl
  take-drop (suc n) (x ∷ xs) = ap (λ r. x ∷ r) (take-drop n xs)

  length-drop : (n : ℕ) (xs : List A) → length (drop n xs) ≤ length xs - n
  length-drop zero xs = omega arith
  length-drop (suc n) [] = omega arith
  length-drop (suc n) (x ∷ xs) = omega (arith, length-drop n xs)

  length-take : (n : ℕ) (xs : List A) → length (take n xs) ≤ n
  length-take zero xs = omega arith
  length-take (suc n) [] = omega arith
  length-take (suc n) (x ∷ xs) = omega (arith, length-take n xs)

  concat-slices :
      (fuel n : ℕ) (xs : List A) → length xs ≤ fuel → concat (slices fuel (suc n) xs) ≡ xs
  unfolding slices
  concat-slices zero n [] h = refl
  concat-slices zero n (x ∷ xs) h = absurd (omega arith)
  concat-slices (suc fuel) n [] h = refl
  concat-slices (suc fuel) n (x ∷ xs) h =
      ap (λ r. take (suc n) (x ∷ xs) ++ r)
        (concat-slices fuel n (drop n xs) (omega (arith, length-drop n xs)))
      ∙ take-drop (suc n) (x ∷ xs)

  slices-short : (fuel n : ℕ) (xs : List A) → All (λ c. length c ≤ n) (slices fuel n xs)
  unfolding slices
  slices-short zero n xs = tt
  slices-short (suc fuel) n [] = tt
  slices-short (suc fuel) n (x ∷ xs) =
      (length-take n (x ∷ xs), slices-short fuel n (drop n (x ∷ xs)))

  -- Chunks of a positive size make up the list again, and none is longer than that.
  pub concat-chunked :
      (n : ℕ) (xs : List A)
      → (concat (chunked (suc n) xs) ≡ xs) × All (λ c. length c ≤ suc n) (chunked (suc n) xs)
  unfolding chunked
  concat-chunked n xs =
      (concat-slices (length xs) n xs (omega arith), slices-short (length xs) (suc n) xs)

abbrev pub chunk_size : ℕ
chunk_size = 5000

module _ (settings : SnowflakeSettings) (driver : Driver) (max_retries : ℕ) where
  -- The query for a chunk, without the line breaks of its text.
  unfoldable pub adjudicated_sql : List String → String
  unfolding dbt_schema join
  adjudicated_sql chunk =
      append
        "select trade_id, trade_version, verdict, to_json(violated_rule_codes) as violated_rule_codes, version_action from "
        (append settings.database (
          append "." (
            append (dbt_schema settings "intermediate") (
              append ".int_trade_event_adjudicated where trade_id in ("
                (append (join ", " (map (λ _. "%s") chunk)) ") and source_file_name ilike %s")))))

  unfoldable pub fetch_chunks : String → List (List String) → Action (List ResultRow)
  unfolding execute adjudicated_sql
  fetch_chunks batch_ref [] = return (ok [])
  fetch_chunks batch_ref (chunk ∷ chunks) = do
    rows ←
        execute driver max_retries (adjudicated_sql chunk)
          (chunk ++ append "%" (append batch_ref "%") ∷ [])
    rest ← fetch_chunks batch_ref chunks
    return (ok (rows ++ rest))

  unfoldable pub fetch_adjudicated : String → List String → Action (List ResultRow)
  unfolding fetch_chunks chunked
  fetch_adjudicated batch_ref trade_ids = fetch_chunks batch_ref (chunked chunk_size trade_ids)

  -- `int(result or 0)` of a count
  unfoldable pub parse_error_count : String → Action ℕ
  unfolding scalar
  parse_error_count batch_ref = do
    result ←
        scalar driver max_retries
          (append "select count(*) from "
            (append settings.database ".raw.copy_error where source_file_name ilike %s"))
          (append "%" (append batch_ref "%") ∷ [])
    return (ok (elim result as (λ _. ℕ) [ number n ↦ n | _ ↦ 0 ]))

-- A file, with its name and the time of its last change.
pub record ManifestFile : Type 0 where
  pub name : String
  pub mtime : ℕ

unfoldable pub insert_by_time : ManifestFile → List ManifestFile → List ManifestFile
insert_by_time f [] = f ∷ []
insert_by_time f (g ∷ gs) =
    let rest = insert_by_time f gs in if ltb g.mtime f.mtime then g ∷ rest else f ∷ g ∷ gs

unfoldable pub sorted_by_time : List ManifestFile → List ManifestFile
unfolding insert_by_time
sorted_by_time [] = []
sorted_by_time (f ∷ fs) = insert_by_time f (sorted_by_time fs)

-- `matches` is the glob pattern of a reference, or that of all manifests.
unfoldable pub find_manifests :
    (Option String → String → Bool) → Bool → List ManifestFile → Option String → List ManifestFile
unfolding sorted_by_time keep
find_manifests matches is_dir files batch_ref =
    if is_dir then sorted_by_time (keep (λ f. matches batch_ref f.name) files) else []
