-- ===== src/Validation/Soundness.antt =====
-- What the exit code 0 of scripts/validate_dags.py says of the DAGs.
use snowflake_trade_pipeline.Prelude.{
  is_empty, ◌≡◌, refl, sym, ◌∙◌, inl, inr, ◌↔◌, String, Bool, true, false, not, ◌&&◌, ◌||◌, some,
  List, [], ◌∷◌, ◌++◌, ◌==◌, nat_eq, nat_equals_iff, string_eq, contains, IsNodup, keep,
  is_empty-keep, All, All-weaken, arith, eq_iff, Bool-cases,
}
use snowflake_trade_pipeline.Validation.{
  TaskNode, LoadedDag, DagBag, Problem, no_description, bad_owner, catches_up, no_failure_callback,
  not_sortable, concurrent_runs, duplicate_task, no_retries, unordered_tasks, unless, is_missing,
  owner_of, is_retried, task_problems, any_callback, ids, insert_once, sorted_set, orphans,
  start_problems, dag_problems, all_problems, validate,
}
use snowflake_trade_pipeline.Validation.Reachable.{IsReachable, IsWired, reachable_tasks-AreReached}

empty-append {ℓ} :
    {A : Type ℓ} (xs ys : List A) → is_empty (xs ++ ys) ≡ (is_empty xs && is_empty ys)
empty-append [] ys = refl
empty-append (x ∷ xs) ys = refl

empty-unless : (b : Bool) (p : Problem) → is_empty (unless b p) ≡ b
unfolding unless
empty-unless true p = refl
empty-unless false p = refl

-- None of the tasks was seen before, or is listed twice, and each is retried.
abbrev AreSound : List String → List TaskNode → Type 0
AreSound seen [] = Unit
AreSound seen (t ∷ ts) =
    (contains seen t.task_id ≡ false) × (is_retried t ≡ true) × AreSound (t.task_id ∷ seen) ts

empty-task_problems :
    (dag_id : String) (seen : List String) (ts : List TaskNode)
    → (is_empty (task_problems dag_id seen ts) ≡ true) ↔ AreSound seen ts
unfolding task_problems
empty-task_problems dag_id seen [] = ((λ _. tt), (λ _. refl))
empty-task_problems dag_id seen (t ∷ ts) =
    let one = unless (not (contains seen t.task_id)) (duplicate_task dag_id t.task_id) in
    let two = unless (is_retried t) (no_retries dag_id t.task_id) in
    let more = task_problems dag_id (t.task_id ∷ seen) ts in
    ground (
      arith,
      empty-append one (two ++ more),
      empty-append two more,
      empty-unless (not (contains seen t.task_id)) (duplicate_task dag_id t.task_id),
      empty-unless (is_retried t) (no_retries dag_id t.task_id),
      empty-task_problems dag_id (t.task_id ∷ seen) ts,
    )

fresh_cons :
    (x : String) (seen names : List String)
    → All (λ v. contains (x ∷ seen) v ≡ false) names
      ↔ (contains names x ≡ false) × All (λ v. contains seen v ≡ false) names
unfolding contains
fresh_cons x seen [] = ((λ _. (refl, tt)), (λ _. tt))
fresh_cons x seen (n ∷ names) = ground (arith, fresh_cons x seen names, eq_iff x n, eq_iff n x)

sound-distinct :
    (seen : List String) (ts : List TaskNode)
    → AreSound seen ts
      ↔ IsNodup (ids ts)
        × All (λ v. contains seen v ≡ false) (ids ts)
        × All (λ t. is_retried t ≡ true) ts
unfolding contains
sound-distinct seen [] = ((λ _. (tt, tt, tt)), (λ _. tt))
sound-distinct seen (t ∷ ts) =
    ground (arith, sound-distinct (t.task_id ∷ seen) ts, fresh_cons t.task_id seen (ids ts))

empty-insert_once : (v : String) (ws : List String) → is_empty (insert_once v ws) ≡ false
unfolding insert_once
empty-insert_once v [] = refl
empty-insert_once v (w ∷ ws) = ground arith

empty-sorted_set : (vs : List String) → is_empty (sorted_set vs) ≡ is_empty vs
unfolding sorted_set
empty-sorted_set [] = refl
empty-sorted_set (v ∷ vs) = empty-insert_once v (sorted_set vs)

-- Every task is reached from `start`, if there is such a task.
abbrev pub IsOrdered : List TaskNode → Type 0
IsOrdered tasks = contains (ids tasks) "start" ≡ true → All (λ v. IsReachable tasks v) (ids tasks)

module _ (tasks : List TaskNode) (wired : IsWired tasks) where
  empty-orphans :
      contains (ids tasks) "start" ≡ true
      → (is_empty (orphans tasks) ≡ true) ↔ All (λ v. IsReachable tasks v) (ids tasks)
  unfolding orphans
  empty-orphans has_start =
      let (reached, ends, found) = reachable_tasks-AreReached tasks wired has_start in
      let left = keep (λ v. not (contains reached v)) (ids tasks) in
      let all = is_empty-keep (λ v. not (contains reached v)) (ids tasks) in
      rw (ends, orphans)
        (
          (λ h.
              All-weaken (λ v. not (contains reached v) ≡ false) (λ v. IsReachable tasks v)
                (ids tasks) (λ v k. (found v).0 (ground (arith, k)))
                (all.0 (sym (empty-sorted_set left) ∙ h))),
          (λ h.
              empty-sorted_set left
              ∙ all.1 (
                  All-weaken (λ v. IsReachable tasks v) (λ v. not (contains reached v) ≡ false)
                    (ids tasks) (λ v k. ground (arith, (found v).1 k)) h)),
        )

  empty-start_problems :
      (dag_id : String) → (is_empty (start_problems dag_id tasks) ≡ true) ↔ IsOrdered tasks
  unfolding start_problems
  empty-start_problems dag_id = elim (Bool-cases (contains (ids tasks) "start")) [
    | inr e ↦ rw (e, start_problems) ((λ _ k. absurd (cc k)), (λ _. refl))
    | inl e ↦
        let shown =
          empty-unless (is_empty (orphans tasks)) (unordered_tasks dag_id (orphans tasks)) in
        let found = empty-orphans e in
        rw (e, start_problems) ((λ h k. found.0 (sym shown ∙ h)), (λ h. shown ∙ found.1 (h refl)))
  ]

-- What a DAG has to satisfy.
pub record IsValid (d : LoadedDag) : Type 0 where
  pub described : is_missing d.description ≡ false
  pub owned : ((owner_of d == "") ≡ false) × ((owner_of d == "airflow") ≡ false)
  pub no_catchup : d.catchup ≡ false
  pub one_run : d.max_active_runs ≡ 1
  pub watched : (d.has_default_callback || any_callback d.tasks) ≡ true
  pub distinct : IsNodup (ids d.tasks)
  pub retried : All (λ t. is_retried t ≡ true) d.tasks
  pub sortable : d.is_sortable ≡ true
  pub ordered : IsOrdered d.tasks

AreSound_lem :
    (ts : List TaskNode) → AreSound [] ts ↔ IsNodup (ids ts) × All (λ t. is_retried t ≡ true) ts
unfolding contains
AreSound_lem ts =
    let split = sound-distinct [] ts in
    ((λ h. ((split.0 h).0, (split.0 h).2)), (λ h. split.1 (h.0, fresh (ids ts), h.1)))
  where
    fresh : (names : List String) → All (λ v. contains [] v ≡ false) names
    fresh [] = tt
    fresh (n ∷ names) = (refl, fresh names)

module _ {A B : Type 0} (xs ys : List Problem) where
  both : (is_empty xs ≡ true) ↔ A → (is_empty ys ≡ true) ↔ B → (is_empty (xs ++ ys) ≡ true) ↔ A × B
  both f g =
      let split = empty-append xs ys in
      (
        (λ h. (f.0 (ground (arith, split, h)), g.0 (ground (arith, split, h)))),
        (λ h. ground (arith, split, f.1 h.0, g.1 h.1)),
      )

single : (b : Bool) (p : Problem) → (is_empty (unless b p) ≡ true) ↔ (b ≡ true)
single b p = ground (arith, empty-unless b p)

module _ (d : LoadedDag) (wired : IsWired d.tasks) where
  dag_problems-split :
      (is_empty (dag_problems d) ≡ true)
      ↔ (((((((not (is_missing d.description) ≡ true)
                    × (not (owner_of d == "" || owner_of d == "airflow") ≡ true))
                  × (not d.catchup ≡ true))
                × ((d.max_active_runs == 1) ≡ true))
              × ((d.has_default_callback || any_callback d.tasks) ≡ true))
            × AreSound [] d.tasks)
          × (d.is_sortable ≡ true))
        × IsOrdered d.tasks
  unfolding dag_problems
  dag_problems-split =
      both _ _
        (both _ _
          (both _ _
            (both _ _
              (both _ _
                (both _ _
                  (both _ _ (single _ (no_description d.dag_id)) (single _ (bad_owner d.dag_id)))
                  (single _ (catches_up d.dag_id)))
                (single _ (concurrent_runs d.dag_id d.max_active_runs)))
              (single _ (no_failure_callback d.dag_id)))
            (empty-task_problems d.dag_id [] d.tasks))
          (single _ (not_sortable d.dag_id)))
        (empty-start_problems d.tasks wired d.dag_id)

  dag_problems-IsValid : (is_empty (dag_problems d) ≡ true) ↔ IsValid d
  dag_problems-IsValid =
      let whole = dag_problems-split in
      let tasks = AreSound_lem d.tasks in
      (
        (λ h.
            let (((((((described, owned), caught), one), watched), sound), sortable), ordered) =
              whole.0 h in
            record {
              described = ground (arith, described);
              owned = ground (arith, owned);
              no_catchup = ground (arith, caught);
              one_run = ground (arith, one);
              watched = watched;
              distinct = (tasks.0 sound).0;
              retried = (tasks.0 sound).1;
              sortable = sortable;
              ordered = ordered;
            }),
        (λ v.
            let first : not (is_missing d.description) ≡ true = ground (arith, v.described) in
            let second : not (owner_of d == "" || owner_of d == "airflow") ≡ true =
              ground (arith, v.owned) in
            let third : not d.catchup ≡ true = ground (arith, v.no_catchup) in
            let fourth = (nat_equals_iff d.max_active_runs 1).1 v.one_run in
            let sixth = tasks.1 (v.distinct, v.retried) in
            whole.1
              (((((((first, second), third), fourth), v.watched), sixth), v.sortable), v.ordered)),
      )

all_problems-AreValid :
    (ds : List LoadedDag)
    → All (λ d. IsWired d.tasks) ds
    → (is_empty (all_problems ds) ≡ true) ↔ All IsValid ds
unfolding all_problems
all_problems-AreValid [] wired = ((λ _. tt), (λ _. refl))
all_problems-AreValid (d ∷ ds) wired =
    both (dag_problems d) (all_problems ds) (dag_problems-IsValid d wired.0)
      (all_problems-AreValid ds wired.1)

-- If the tasks right behind each task of the DAGs are tasks of the same DAG, then the exit code is 0
-- exactly if all files have been imported, there is a DAG, and each DAG satisfies the requirements:
-- among them that no identifier stands twice and that, where there is a task `start`, a chain of
-- tasks leads from it to every task.
pub validate-AreValid :
    (bag : DagBag)
    → All (λ d. IsWired d.tasks) bag.dags
    → (validate (some bag) ≡ 0)
      ↔ (is_empty bag.import_errors ≡ true) × (is_empty bag.dags ≡ false) × All IsValid bag.dags
unfolding validate
validate-AreValid bag wired = ground (arith, all_problems-AreValid bag.dags wired)
