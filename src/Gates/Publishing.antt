-- ===== src/Gates/Publishing.antt =====
-- What a run of the DAG in airflow/dags/trade_pipeline.py promises when it builds the marts, and
-- when it comes to its end.
use snowflake_trade_pipeline.Prelude.{
  is_empty, ℕ, ◌+◌, ◌*◌, ◌≤◌, ◌<◌, ◌≡◌, refl, ◌⊎◌, inl, inr, String, Bool, true, false, not, List,
  [], ◌∷◌, ltb, ◌==◌, nat_eq, string_eq, arith, keep, contains, All, All-weaken, Bool-cases,
}
use snowflake_trade_pipeline.Reconcile.{ReconciliationResult, passed}
use snowflake_trade_pipeline.Gates.Order.{
  before, is_guarded, before-succeeds, contains-closing, ahead_of_the_report,
}
use snowflake_trade_pipeline.Gates.{
  Thresholds, Figures, rate_exceeds, gate_load_integrity, gate_reject_rate, check_source_freshness,
  gate_reconciliation, gate_publish_readiness, dag, succeeds, started,
}

none_kept {ℓ} :
    {A : Type ℓ} (p : A → Bool) (xs : List A)
    → is_empty (keep p xs) ≡ true
    → All (λ x. p x ≡ false) xs
unfolding keep
none_kept p [] h = tt
none_kept p (x ∷ xs) h = elim (Bool-cases (p x)) [
  | inl e ↦ absurd (let k : false ≡ true = rw e at h in ground (arith, k))
  | inr e ↦ let k : is_empty (keep p xs) ≡ true = rw e at h in (e, none_kept p xs k)
]

-- What the gates ahead of the marts have ruled out.
pub record IsPlausible (thresholds : Thresholds) (f : Figures) : Type 0 where
  pub none_stuck : f.stuck_batches ≡ 0
  pub parsed :
      f.rows_errored * 1000000 ≤ thresholds.max_parse_error_rate * (f.rows_loaded + f.rows_errored)
  pub fresh : All (λ s. (s == "error") ≡ false) f.statuses
  pub few_rejected :
      (f.total_events < thresholds.min_events_for_gate)
      ⊎ (f.rejected * 1000000 ≤ thresholds.max_reject_rate * f.total_events)

module _ (thresholds : Thresholds) where
  load_integrity-lem :
      (stuck loaded errored : ℕ)
      → (gate_load_integrity thresholds stuck loaded errored).raised ≡ false
      → (stuck ≡ 0) × (errored * 1000000 ≤ thresholds.max_parse_error_rate * (loaded + errored))
  unfolding gate_load_integrity rate_exceeds
  load_integrity-lem stuck loaded errored h = elim (Bool-cases (ltb 0 (loaded + errored))) [
    | inl e ↦ (ground (arith, h), ground (arith, h, e))
    | inr e ↦ (
      ground (arith, h),
      let none_errored : errored ≡ 0 = ground (arith, e) in omega (arith, none_errored),
    )
  ]

  reject_rate-lem :
      (total rejected : ℕ)
      → rejected ≤ total
      → (gate_reject_rate thresholds total rejected).raised ≡ false
      → (total < thresholds.min_events_for_gate)
        ⊎ (rejected * 1000000 ≤ thresholds.max_reject_rate * total)
  unfolding gate_reject_rate rate_exceeds
  reject_rate-lem total rejected small h =
      elim (Bool-cases (ltb total thresholds.min_events_for_gate)) [
        | inl e ↦ inl (ground (arith, e))
        | inr e ↦ inr (elim (Bool-cases (ltb 0 total)) [
          | inl more ↦ ground (arith, h, e, more)
          | inr none_at ↦
              let nothing : rejected ≡ 0 = ground (arith, none_at, small) in omega (arith, nothing)
        ])
      ]

freshness-lem :
    (statuses : List String)
    → (check_source_freshness statuses).raised ≡ false
    → All (λ s. (s == "error") ≡ false) statuses
unfolding check_source_freshness
freshness-lem statuses h =
    none_kept (λ s. s == "error") statuses
      (elim (Bool-cases (is_empty (keep (λ s. s == "error") statuses))) [
        | inl e ↦ e
        | inr e ↦ absurd (let k : true ≡ false = rw e at h in ground (arith, k))
      ])

pub reconciliation-lem :
    (results : List ReconciliationResult)
    → (gate_reconciliation results).raised ≡ false
    → All (λ r. passed r ≡ true) results
unfolding gate_reconciliation
reconciliation-lem results h =
    All-weaken (λ r. not (passed r) ≡ false) (λ r. passed r ≡ true) results
      (λ r p. ground (arith, p))
      (none_kept (λ r. not (passed r)) results
        (elim (Bool-cases (is_empty (keep (λ r. not (passed r)) results))) [
          | inl e ↦ e
          | inr e ↦ absurd (let k : true ≡ false = rw e at h in ground (arith, k))
        ]))

pub readiness-lem :
    (status : String) (overdue : ℕ)
    → (gate_publish_readiness status overdue).raised ≡ false
    → (overdue ≡ 0) × ((status == "RED") ≡ false)
unfolding gate_publish_readiness
readiness-lem status overdue h = (ground (arith, h), ground (arith, h))

unraised : (b : Bool) → not b ≡ true → b ≡ false
unraised b h = ground (arith, h)

-- What the whole run has ruled out.
pub record IsPublishable (thresholds : Thresholds) (f : Figures) : Type 0 where
  pub plausible : IsPlausible thresholds f
  pub reconciled : All (λ r. passed r ≡ true) f.results
  pub none_overdue : f.overdue ≡ 0
  pub not_red : (f.overall_status == "RED") ≡ false

module _ (thresholds : Thresholds) (f : Figures) (others : String → Bool) where
  plausible :
      f.rejected ≤ f.total_events
      → succeeds thresholds f others "gate_load_integrity" ≡ true
      → succeeds thresholds f others "check_source_freshness" ≡ true
      → succeeds thresholds f others "gate_reject_rate" ≡ true
      → IsPlausible thresholds f
  unfolding succeeds
  plausible counted load fresh reject =
      let (none_stuck, parsed) =
        load_integrity-lem thresholds f.stuck_batches f.rows_loaded f.rows_errored
          (unraised _ load) in
      record {
        none_stuck = none_stuck;
        parsed = parsed;
        fresh = freshness-lem f.statuses (unraised _ fresh);
        few_rejected =
            reject_rate-lem thresholds f.total_events f.rejected counted (unraised _ reject);
      }

  -- If a run starts to build the marts, then no batch is stuck, the share of rows that did not
  -- parse is within its limit, no source is in error, and the share of rejected events is within
  -- its limit or the events are too few to judge by, where no more events are rejected than there
  -- are.
  pub marts-IsPlausible :
      f.rejected ≤ f.total_events
      → contains (started (succeeds thresholds f others) true dag) "dbt_run_marts" ≡ true
      → IsPlausible thresholds f
  unfolding before is_guarded
  marts-IsPlausible counted h =
      let (_, (_, (_, (_, (_, (_, (_, (load, (_, (fresh, (_, (_, (_, (reject, _)))))))))))))) =
        before-succeeds (succeeds thresholds f others) true dag "dbt_run_marts" refl h in
      plausible counted load fresh reject

  -- If the last gate of a run is started and passes, then moreover every reconciliation has passed,
  -- no expiry is overdue, and the platform is not red.
  pub readiness-IsPublishable :
      f.rejected ≤ f.total_events
      → contains (started (succeeds thresholds f others) true dag) "gate_publish_readiness" ≡ true
      → succeeds thresholds f others "gate_publish_readiness" ≡ true
      → IsPublishable thresholds f
  unfolding before is_guarded succeeds
  readiness-IsPublishable counted h ready =
      let (
        _,
        (
          _,
          (
            _,
            (
              _,
              (
                _,
                (
                  _,
                  (
                    _,
                    (load, (_, (fresh, (_, (_, (_, (reject, (_, (_, (_, (reconciled, _))))))))))),
                  ),
                ),
              ),
            ),
          ),
        ),
      ) =
        before-succeeds (succeeds thresholds f others) true dag "gate_publish_readiness" refl h in
      let (none_overdue, not_red) = readiness-lem f.overall_status f.overdue (unraised _ ready) in
      record {
        plausible = plausible counted load fresh reject;
        reconciled = reconciliation-lem f.results (unraised _ reconciled);
        none_overdue = none_overdue;
        not_red = not_red;
      }

  -- Whatever the gates decide, the task `end` is started, if the health report does not fail.
  pub end-started :
      others "report_health" ≡ true
      → contains (started (succeeds thresholds f others) true dag) "end" ≡ true
  unfolding contains
  end-started h =
      contains-closing (succeeds thresholds f others) true (ahead_of_the_report 18 dag)
        (unfold succeeds in h)
