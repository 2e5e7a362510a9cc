-- ===== src/RunStatus/Verdict.antt =====
-- What the exit codes of scripts/airflow_run_status.py mean.
use snowflake_trade_pipeline.Prelude.{
  is_empty, is_empty-keep, ℕ, String, ◌≡◌, refl, ap, ◌↔◌, inl, inr, Bool, true, false, not, ◌||◌,
  Option, none, some, List, [], ◌∷◌, ==_sound, string_eq, keep, All, if◌then◌else◌, Bool-cases,
  arith,
}
use snowflake_trade_pipeline.Prelude.Dict.{Dict}
use snowflake_trade_pipeline.RunStatus.{
  TaskInstance, DagRun, Metadata, is_state, is_pending, precedes, insert_instance, sorted_instances,
  report, run_verdict, run_status,
}

-- The test fails on every task.
abbrev pub AreFree : (TaskInstance → Bool) → List TaskInstance → Type 0
AreFree p = All (λ t. p t ≡ false)

AreFree-insert_instance :
    (order : Dict String ℕ) (p : TaskInstance → Bool) (t : TaskInstance) (ts : List TaskInstance)
    → AreFree p (insert_instance order t ts) ↔ AreFree p (t ∷ ts)
unfolding insert_instance
AreFree-insert_instance order p t [] = ((λ h. h), (λ h. h))
AreFree-insert_instance order p t (u ∷ us) =
    let rest = AreFree-insert_instance order p t us in
    elim (Bool-cases (precedes order u t)) [
      | inl e ↦
          rw e ((λ h. ((rest.0 h.1).0, (h.0, (rest.0 h.1).1))), (λ h. (h.1.0, rest.1 (h.0, h.1.1))))
      | inr e ↦ rw e ((λ h. h), (λ h. h))
    ]

AreFree-sorted_instances :
    (order : Dict String ℕ) (p : TaskInstance → Bool) (ts : List TaskInstance)
    → AreFree p (sorted_instances order ts) ↔ AreFree p ts
unfolding sorted_instances
AreFree-sorted_instances order p [] = ((λ h. h), (λ h. h))
AreFree-sorted_instances order p (t ∷ ts) =
    let first = AreFree-insert_instance order p t (sorted_instances order ts) in
    let rest = AreFree-sorted_instances order p ts in
    ((λ h. let k = first.0 h in (k.0, rest.0 k.1)), (λ h. first.1 (h.0, rest.1 h.1)))

is_empty-sorted :
    (order : Dict String ℕ) (p : TaskInstance → Bool) (ts : List TaskInstance)
    → (is_empty (keep p (sorted_instances order ts)) ≡ true) ↔ AreFree p ts
is_empty-sorted order p ts =
    let kept = is_empty-keep p (sorted_instances order ts) in
    let free = AreFree-sorted_instances order p ts in
    ((λ h. free.0 (kept.0 h)), (λ h. kept.1 (free.1 h)))

abbrev verdict_of : Bool → Bool → Bool → Bool → Bool → ℕ
verdict_of no_failed no_blocked no_pending running success =
    if not no_failed || not no_blocked
    then 1
    else if not no_pending || running
    then 2
    else if not success
    then 1
    else 0

verdict_of-zero :
    (a b c d e : Bool)
    → verdict_of a b c d e ≡ 0
    → (a ≡ true) × (b ≡ true) × (c ≡ true) × (d ≡ false) × (e ≡ true)
verdict_of-zero a b c d e h = ground arith

zero-verdict_of :
    (a b c d e : Bool)
    → a ≡ true
    → b ≡ true
    → c ≡ true
    → d ≡ false
    → e ≡ true
    → verdict_of a b c d e ≡ 0
zero-verdict_of a b c d e h i j k l = ground arith

is_state-some :
    (name : String) (state : Option String) → is_state name state ≡ true → state ≡ some name
unfolding is_state
is_state-some name none h = absurd cc
is_state-some name (some s) h = ap some (==_sound s name h)

is_state-success :
    (state : Option String)
    → state ≡ some "success"
    → (is_state "running" state ≡ false) × (is_state "success" state ≡ true)
unfolding is_state
is_state-success state e = rw e (refl, refl)

-- A run that has succeeded, as far as its tasks tell: none has failed, is blocked by one that has,
-- or has not finished.
abbrev pub HasSucceeded : DagRun → Type 0
HasSucceeded r =
    (r.state ≡ some "success")
    × AreFree (λ t. is_state "failed" t.state) r.instances
    × AreFree (λ t. is_state "upstream_failed" t.state) r.instances
    × AreFree (λ t. is_pending t.state) r.instances

abbrev pub LatestHasSucceeded : List DagRun → Type 0
LatestHasSucceeded [] = ⊥
LatestHasSucceeded (latest ∷ older) = HasSucceeded latest

run_status_of :
    (is_installed is_registered : Bool) (runs : List DagRun) (order : Dict String ℕ)
    → (run_status is_installed
          record { is_registered = is_registered; runs = runs; execution_order = order }
        ≡ 0)
      ↔ ((is_installed ≡ true) × (is_registered ≡ true) × LatestHasSucceeded runs)
unfolding run_status run_verdict report
run_status_of false is_registered runs order =
    ((λ h. absurd (omega arith)), (λ h. absurd (cc (h.0))))
run_status_of true false runs order = ((λ h. absurd (omega arith)), (λ h. absurd (cc (h.1))))
run_status_of true true [] order = ((λ h. absurd (omega arith)), (λ h. absurd (h.2)))
run_status_of true true (latest ∷ older) order =
    let failed = is_empty-sorted order (λ t. is_state "failed" t.state) latest.instances in
    let blocked =
      is_empty-sorted order (λ t. is_state "upstream_failed" t.state) latest.instances in
    let pending = is_empty-sorted order (λ t. is_pending t.state) latest.instances in
    (
      (λ h.
          let (f, b, p, r, s) = verdict_of-zero _ _ _ _ _ h in
          (
            refl,
            refl,
            (is_state-some "success" latest.state s, failed.0 f, blocked.0 b, pending.0 p),
          )),
      (λ h.
          let (state, f, b, p) = h.2 in
          let succeeded = is_state-success latest.state state in
          zero-verdict_of _ _ _ _ _ (failed.1 f) (blocked.1 b) (pending.1 p) succeeded.0
            succeeded.1),
    )

-- The exit code is 0 exactly if Airflow is installed, the DAG is registered, and it has a latest
-- run, which is in the state "success" and in which no task has failed, is blocked upstream, or has
-- not finished, in whatever order the tasks come.
pub run_status-zero :
    (is_installed : Bool) (m : Metadata)
    → (run_status is_installed m ≡ 0)
      ↔ ((is_installed ≡ true) × (m.is_registered ≡ true) × LatestHasSucceeded m.runs)
run_status-zero is_installed m = run_status_of is_installed m.is_registered m.runs m.execution_order
