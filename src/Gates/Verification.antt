-- ===== src/Gates/Verification.antt =====
-- The tasks simulate_arrivals and reconcile of airflow/dags/trade_pipeline.py: a run simulates one
-- batch, and compares the manifests of that batch, and of no other, with the verdicts reached. What
-- the JSON library reads in a manifest and the rows that the warehouse answers are arguments.
use snowflake_trade_pipeline.Prelude.{
  keep, ℕ, String, ◌≡◌, Bool, true, false, not, ◌||◌, Option, none, some, List, [], ◌∷◌,
  if◌then◌else◌, ◌==◌, string_eq, All, Bool-cases, inl, inr,
}
use snowflake_trade_pipeline.Result.{Result, ok, ◌>>=◌, Yields, Yields-bind, Result-cases}
use snowflake_trade_pipeline.Schema.Codecs.{Codec}
use snowflake_trade_pipeline.Book.{TradeBook}
use snowflake_trade_pipeline.Generator.Draws.{Settings, Draws}
use snowflake_trade_pipeline.Arbitration.Manifest.{BatchManifest}
use snowflake_trade_pipeline.Writer.{Files, BatchWriter, Moment}
use snowflake_trade_pipeline.Commands.{Simulation, generate_batch}
use snowflake_trade_pipeline.Reconcile.{
  Row, ReconciliationResult, reconcile, passed, actual_by_key, expected_by_key, is_expected,
}
use snowflake_trade_pipeline.Reconcile.Answers.{AreAnswered, reconcile-AreAnswered}
use snowflake_trade_pipeline.Reconcile.Fetch.{ManifestFile, find_manifests}
use snowflake_trade_pipeline.Gates.{Outcome, gate_reconciliation}
use snowflake_trade_pipeline.Gates.Publishing.{reconciliation-lem}
use snowflake_trade_pipeline.Gates.Ingest.{arrival_ref}

-- The book is the one that the simulator holds while it has the lock.
module _ (codec : Codec) (settings : Settings) (as_of : ℕ) (gzip : String → String)
    (dump : BatchManifest → String) (w : BatchWriter) where
  unfoldable pub simulate_arrivals :
      Bool → String → List Draws → Moment → TradeBook → Files → Result (Option Simulation)
  unfolding generate_batch arrival_ref
  simulate_arrivals false run_id draws when book files = ok none
  simulate_arrivals true run_id draws when book files = do
    done ←
        generate_batch codec settings as_of gzip dump w
          record { book = book; files = files; written = [] }
          record { batch_ref = arrival_ref run_id; draws = draws; when = when }
    ok (some done)

-- What `reconcile` comes to: skipped, perhaps with a reason, or a comparison with the gate behind it.
pub data Verification : Type 0 where
  skipped : Option String → Verification
  compared : List ReconciliationResult → Outcome → Verification

module _ (json_codes : String → List String) (matches : Option String → String → Bool)
    (load_manifest : ManifestFile → BatchManifest) (rows : BatchManifest → Result (List Row)) where
  unfoldable pub compare_all : List ManifestFile → Result (List ReconciliationResult)
  unfolding reconcile
  compare_all [] = ok []
  compare_all (f ∷ fs) = do
    answered ← rows (load_manifest f)
    results ← compare_all fs
    ok (reconcile json_codes (load_manifest f) answered ∷ results)

  unfoldable pub compare_found : List ManifestFile → Result Verification
  unfolding compare_all gate_reconciliation
  compare_found [] = ok (skipped (some "no manifests"))
  compare_found (f ∷ fs) = do
    results ← compare_all (f ∷ fs)
    ok (compared results (gate_reconciliation results))

  -- The flags are `SIMULATE_ARRIVALS` and "skip_reconciliation"; then come whether the directory of
  -- the manifests is there, its files, and the reference that `simulate_arrivals` has returned.
  unfoldable pub reconcile_task :
      Bool → Bool → Bool → List ManifestFile → Option String → Result Verification
  unfolding compare_found find_manifests
  reconcile_task simulates skips is_dir files none =
      ok (skipped (if not simulates || skips then none else some "no batch_ref"))
  reconcile_task simulates skips is_dir files (some batch_ref) =
      if not simulates || skips
      then ok (skipped none)
      else if batch_ref == ""
      then ok (skipped (some "no batch_ref"))
      else compare_found (find_manifests matches is_dir files (some batch_ref))

  -- Rows were fetched for the manifest, and they answer its expectations.
  pub record IsVerified (f : ManifestFile) : Type 0 where
    pub answered : List Row
    pub fetched : rows (load_manifest f) ≡ ok answered
    pub agrees :
        AreAnswered json_codes
          (actual_by_key [] answered)
          (expected_by_key [] (keep is_expected (load_manifest f).verdicts))

  -- What the gate behind the comparison promises of these files.
  abbrev pub IsSound : List ManifestFile → Verification → Type 0
  IsSound fs (skipped reason) = Unit
  IsSound fs (compared results outcome) = outcome.raised ≡ false → All IsVerified fs

  compare_all-lem :
      (fs : List ManifestFile)
      → Yields (λ results. All (λ r. passed r ≡ true) results → All IsVerified fs) (compare_all fs)
  unfolding compare_all
  compare_all-lem [] = λ all. tt
  compare_all-lem (f ∷ fs) = elim (Result-cases (rows (load_manifest f))) [
    | inl (answered, e) ↦
        rw (e, compare_all)
          (Yields-bind (λ results. All (λ r. passed r ≡ true) results → All IsVerified fs)
            (λ results. All (λ r. passed r ≡ true) results → All IsVerified (f ∷ fs))
            (compare_all fs)
            (λ results. ok (reconcile json_codes (load_manifest f) answered ∷ results))
            (compare_all-lem fs)
            λ results h all. (
              record {
                answered = answered;
                fetched = e;
                agrees = reconcile-AreAnswered json_codes (load_manifest f) answered all.0;
              },
              h all.1,
            ))
    | inr (x, e) ↦ rw (e, compare_all) tt
  ]

  compare_found-lem : (fs : List ManifestFile) → Yields (IsSound fs) (compare_found fs)
  unfolding compare_found
  compare_found-lem [] = tt
  compare_found-lem (f ∷ fs) =
      Yields-bind (λ results. All (λ r. passed r ≡ true) results → All IsVerified (f ∷ fs))
        (IsSound (f ∷ fs)) (compare_all (f ∷ fs))
        (λ results. ok (compared results (gate_reconciliation results))) (compare_all-lem (f ∷ fs))
        λ results h calm. h (reconciliation-lem results calm)

  -- If the task `reconcile` compares and its gate does not raise, then for each manifest that the
  -- reference of this run's batch matches, rows have been fetched, and under every key each
  -- expectation has one of them of its own, with the verdict expected and at least the rule codes
  -- expected.
  pub reconcile_task-IsSound :
      (simulates skips is_dir : Bool) (files : List ManifestFile) (batch_ref : String)
      → Yields
          (IsSound (find_manifests matches is_dir files (some batch_ref)))
          (reconcile_task simulates skips is_dir files (some batch_ref))
  unfolding reconcile_task
  reconcile_task-IsSound simulates skips is_dir files batch_ref =
      elim (Bool-cases (not simulates || skips)) [
        | inl e ↦ rw (e, reconcile_task) tt
        | inr e ↦ elim (Bool-cases (batch_ref == "")) [
          | inl b ↦ rw (e, b, reconcile_task) tt
          | inr b ↦
              rw (e, b, reconcile_task)
                (compare_found-lem (find_manifests matches is_dir files (some batch_ref)))
        ]
      ]
