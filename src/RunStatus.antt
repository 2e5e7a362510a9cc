-- ===== src/RunStatus.antt =====
-- scripts/airflow_run_status.py: the verdict on the latest run of a DAG. What Airflow's metadata
-- database holds is a record, and times are microseconds.
pub mod Verdict
use Prim.Native.Nat.{Ordering}
use Prim.Native.String.{compare}
use snowflake_trade_pipeline.Prelude.{
  is_empty, ℕ, ◌+◌, ◌-◌, ◌*◌, ◌/◌, ◌%◌, String, Bool, true, false, not, ◌&&◌, ◌||◌, Option, none,
  some, List, [], ◌∷◌, map, ltb, if◌then◌else◌, ◌==◌, nat_eq, string_eq, contains, keep, length,
}
use snowflake_trade_pipeline.Prelude.Dict.{Dict, lookup}
use snowflake_trade_pipeline.Deploy.Texts.{append}
use snowflake_trade_pipeline.Book.Format.{zero_padded}

pub record TaskInstance : Type 0 where
  pub task_id : String
  pub state : Option String
  pub start_date : Option ℕ
  pub end_date : Option ℕ
  pub try_number : ℕ

pub record DagRun : Type 0 where
  pub run_id : String
  pub state : Option String
  pub instances : List TaskInstance

-- The latest run comes first. The order is that of the serialised DAG, or empty.
pub record Metadata : Type 0 where
  pub is_registered : Bool
  pub runs : List DagRun
  pub execution_order : Dict String ℕ

abbrev pub good_states : List String
good_states = "success" ∷ []

abbrev pub benign_states : List String
benign_states = "skipped" ∷ []

-- `None` is one more.
abbrev pub pending_states : List String
pending_states =
    "running" ∷ "queued" ∷ "scheduled" ∷ "deferred" ∷ "up_for_retry" ∷ "restarting" ∷ []

unfoldable pub is_state : String → Option String → Bool
is_state name none = false
is_state name (some s) = s == name

unfoldable pub is_pending : Option String → Bool
unfolding contains
is_pending none = true
is_pending (some s) = contains pending_states s

pub data Colour : Type 0 where
  green yellow dim red : Colour

unfoldable pub colour : Option String → Colour
unfolding contains is_pending
colour none = dim
colour (some s) =
    if contains good_states s
    then green
    else if contains benign_states s
    then yellow
    else if is_pending (some s)
    then dim
    else red

-- `f"{x:.0f}"` of a number of microseconds, in seconds: half of a second goes to the even one.
unfoldable pub rounded : ℕ → ℕ
rounded n =
    let whole = n / 1000000 in
    let part = n % 1000000 in
    if ltb part 500000 then whole else if part == 500000 && whole % 2 == 0 then whole else whole + 1

-- The time since `start`, up to `end` or to `now`.
unfoldable pub duration : ℕ → Option ℕ → Option ℕ → String
unfolding rounded zero_padded
duration now none finish = "-"
duration now (some start) finish =
    let until : ℕ = elim finish [ none ↦ now | some t ↦ t ] in
    let elapsed = until - start in
    if ltb until start
    then "-"
    else if ltb elapsed 60000000
    then append (zero_padded 1 (rounded elapsed)) "s"
    else append (zero_padded 1 (elapsed / 60000000))
        (append "m" (append (zero_padded 2 ((elapsed / 1000000) % 60)) "s"))

-- `datetime.max`, from the first of January of year 1 on
abbrev pub far_future : ℕ
far_future = 315537897599999999

-- `order.get(task_id, 0)`
unfoldable pub rank : Dict String ℕ → String → ℕ
unfolding lookup
rank order task_id = elim (lookup order task_id) [ none ↦ 0 | some n ↦ n ]

-- `ti.start_date or far_future`
unfoldable pub start_of : TaskInstance → ℕ
start_of t = elim t.start_date [ none ↦ far_future | some s ↦ s ]

-- Whether the sort key of the first is below that of the second.
unfoldable pub precedes : Dict String ℕ → TaskInstance → TaskInstance → Bool
unfolding rank start_of
precedes order a b =
    let i = rank order a.task_id in
    let j = rank order b.task_id in
    ltb (start_of a) (start_of b)
    || (start_of a == start_of b
        && (ltb i j
            || (i == j && (elim (compare a.task_id b.task_id) [ Ordering.lt ↦ true | _ ↦ false ]))))

-- In front of the first that it does not come behind.
unfoldable pub insert_instance :
    Dict String ℕ → TaskInstance → List TaskInstance → List TaskInstance
unfolding precedes
insert_instance order t [] = t ∷ []
insert_instance order t (u ∷ us) =
    let rest = insert_instance order t us in if precedes order u t then u ∷ rest else t ∷ u ∷ us

-- `sorted(raw_instances, key=…)`, which is stable
unfoldable pub sorted_instances : Dict String ℕ → List TaskInstance → List TaskInstance
unfolding insert_instance
sorted_instances order [] = []
sorted_instances order (t ∷ ts) = insert_instance order t (sorted_instances order ts)

abbrev pub log_root : String
log_root = "/opt/airflow/logs"

-- Whether a file exists and whether a directory does are arguments.
unfoldable pub log_hint : (String → Bool) → (String → Bool) → String → String → String → ℕ → String
unfolding zero_padded
log_hint exists is_dir dag_id run_id task_id try_number =
    let directory = append log_root (
      append "/dag_id="
        (append dag_id (append "/run_id=" (append run_id (append "/task_id=" task_id))))) in
    let name = append "attempt=" (append (zero_padded 1 try_number) ".log") in
    let attempt = append directory (append "/" name) in
    if exists attempt
    then attempt
    else if is_dir directory
    then append directory (append "/ (no " (append name "; the filename template may differ)"))
    else append directory "/ (nothing here -- check the logs volume is mounted)"

-- The figures of the report on the latest run.
pub record Report : Type 0 where
  pub failed : List TaskInstance
  pub blocked : List TaskInstance
  pub skipped : List TaskInstance
  pub pending : List TaskInstance

unfoldable pub report : List TaskInstance → Report
unfolding keep is_state is_pending
report instances = record {
  failed = keep (λ t. is_state "failed" t.state) instances;
  blocked = keep (λ t. is_state "upstream_failed" t.state) instances;
  skipped = keep (λ t. is_state "skipped" t.state) instances;
  pending = keep (λ t. is_pending t.state) instances;
}

-- What the report on the latest run comes to.
unfoldable pub run_verdict : Option String → Report → ℕ
unfolding is_state
run_verdict state r =
    if not (is_empty r.failed) || not (is_empty r.blocked)
    then 1
    else if not (is_empty r.pending) || is_state "running" state
    then 2
    else if not (is_state "success" state)
    then 1
    else 0

-- The exit code of `main`, whether or not Airflow is installed.
unfoldable pub run_status : Bool → Metadata → ℕ
unfolding sorted_instances report run_verdict
run_status is_installed m =
    if not is_installed then 2 else if not m.is_registered then 2 else elim m.runs [
      | [] ↦ 2
      | latest ∷ older ↦
          run_verdict latest.state (report (sorted_instances m.execution_order latest.instances))
    ]
