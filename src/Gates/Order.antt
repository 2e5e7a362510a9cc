-- ===== src/Gates/Order.antt =====
-- The order of the tasks in airflow/dags/trade_pipeline.py: what has succeeded when a task is
-- started.
use snowflake_trade_pipeline.Prelude.{
  ℕ, zero, suc, ◌≡◌, refl, ◌⊎◌, inl, inr, String, Bool, true, false, not, ◌&&◌, List, [], ◌∷◌,
  if◌then◌else◌, ◌==◌, nat_eq, string_eq, arith, contains, map, ◌++◌, All, Bool-cases,
}
use snowflake_trade_pipeline.Gates.{started, Task, TriggerRule, all_success, all_done, is_triggered}

abbrev pub task_ids : List Task → List String
task_ids = map (λ t. t.task_id)

abbrev waits_for_success : TriggerRule → Bool
waits_for_success all_success = true
waits_for_success all_done = false

-- The task stands once in the list, and it and all ahead of it wait for a success.
unfoldable pub is_guarded : List Task → String → Bool
unfolding contains
is_guarded [] x = true
is_guarded (t ∷ ts) x =
    let rest = is_guarded ts x in
    waits_for_success t.trigger_rule
    && (if t.task_id == x then not (contains (task_ids ts) x) else rest)

-- The tasks ahead of a task.
unfoldable pub before : List Task → String → List String
before [] x = []
before (t ∷ ts) x = let rest = before ts x in if t.task_id == x then [] else t.task_id ∷ rest

started-absent :
    (ok : String → Bool) (up : Bool) (ts : List Task) (x : String)
    → contains (task_ids ts) x ≡ false
    → contains (started ok up ts) x ≡ false
unfolding started contains
started-absent ok up [] x h = refl
started-absent ok up (t ∷ ts) x h = ground (
  arith,
  started-absent ok (is_triggered t.trigger_rule up && ok t.task_id) ts x (ground (arith, h)),
  h,
)

rule-cases : (r : TriggerRule) → (r ≡ all_success) ⊎ (r ≡ all_done)
rule-cases all_success = inl refl
rule-cases all_done = inr refl

is_triggered-all_success :
    (up : Bool) (r : TriggerRule) → r ≡ all_success → is_triggered r up ≡ true → up ≡ true
unfolding is_triggered
is_triggered-all_success up all_success e h = h
is_triggered-all_success up all_done e h = absurd cc

-- If a guarded task is started, then every task ahead of it has succeeded.
pub before-succeeds :
    (ok : String → Bool) (up : Bool) (ts : List Task) (x : String)
    → is_guarded ts x ≡ true
    → contains (started ok up ts) x ≡ true
    → (up ≡ true) × All (λ t. ok t ≡ true) (before ts x)
unfolding before started contains is_guarded
before-succeeds ok up [] x g h = absurd (ground (arith, h))
before-succeeds ok up (t ∷ ts) x g h = elim (rule-cases t.trigger_rule) [
  | inr r ↦ absurd (let k : false ≡ true = rw r at g in ground (arith, k))
  | inl r ↦ elim (Bool-cases (t.task_id == x)) [
    | inl e ↦
        let absent =
          started-absent ok (is_triggered t.trigger_rule up && ok t.task_id) ts x
            (ground (arith, g, e)) in
        (is_triggered-all_success up t.trigger_rule r (ground (arith, h, absent, e)), rw e tt)
    | inr e ↦
        let (both, all) =
          before-succeeds ok (is_triggered t.trigger_rule up && ok t.task_id) ts x
            (ground (arith, g, e)) (ground (arith, e, h)) in
        let triggered = is_triggered-all_success up t.trigger_rule r (ground (arith, both)) in
        (triggered, rw e (ground (arith, both), all))
  ]
]

-- A chain that closes with a report once all is done, and a task behind the report.
abbrev pub closing : List Task
closing =
    record { task_id = "report_health"; trigger_rule = all_done }
    ∷ record { task_id = "end"; trigger_rule = all_success }
    ∷ []

pub contains-closing :
    (ok : String → Bool) (up : Bool) (ts : List Task)
    → ok "report_health" ≡ true
    → contains (started ok up (ts ++ closing)) "end" ≡ true
unfolding started contains is_triggered
contains-closing ok up [] h = rw h refl
contains-closing ok up (t ∷ ts) h =
    ground (arith, contains-closing ok (is_triggered t.trigger_rule up && ok t.task_id) ts h)

-- The DAG up to its last gate.
abbrev pub ahead_of_the_report : ℕ → List Task → List Task
ahead_of_the_report zero ts = []
ahead_of_the_report (suc n) [] = []
ahead_of_the_report (suc n) (t ∷ ts) = t ∷ ahead_of_the_report n ts
