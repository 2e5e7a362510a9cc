-- ===== src/Doctor/Report.antt =====
-- What the report of scripts/doctor.py and its exit code say of the checks.
use snowflake_trade_pipeline.Prelude.{
  ℕ, ◌+◌, ◌≡◌, refl, sym, ap, ◌∙◌, ◌⊎◌, inl, inr, String, Bool, true, false, some, List, [], ◌∷◌,
  count_if, if◌then◌else◌, ◌==◌, nat_eq, string_eq, arith, map, Bool-cases, Option-cases,
}
use snowflake_trade_pipeline.Result.{Result}
use snowflake_trade_pipeline.Deploy.Texts.{append}
use snowflake_trade_pipeline.Doctor.{
  Status, status_ok, status_warn, status_fail, status_skip, CheckResult, found, outcome, Doctor,
  new_doctor, counted, is_failed, has_failed, block, Line, checks, blocks, Checks, check,
  block_if_failed, run_lines, later_lines, exit_code, main,
}

abbrev pub is_failure : String × CheckResult → Bool
is_failure (name, r) = is_failed r

abbrev pub failures : List (String × CheckResult) → ℕ
failures printed = count_if is_failure printed

abbrev pub names : List (String × CheckResult) → List String
names printed = map (λ p. p.0) printed

-- The names of the checks, onto those that were printed before.
abbrev pub names_after : {W : Type 0} → List (Line W) → List String → List String
names_after [] before = before
names_after (checks name fn ∷ ls) before = names_after ls (name ∷ before)
names_after (blocks name reason ∷ ls) before = names_after ls before

Status-cases :
    (s : Status) → (s ≡ status_fail) ⊎ (s ≡ status_warn) ⊎ (s ≡ status_ok) ⊎ (s ≡ status_skip)
Status-cases status_fail = inl refl
Status-cases status_warn = inr (inl refl)
Status-cases status_ok = inr (inr (inl refl))
Status-cases status_skip = inr (inr (inr refl))

counted-names :
    (name : String) (r : CheckResult) (d : Doctor)
    → names (counted name r d).printed ≡ name ∷ names d.printed
unfolding counted
counted-names name r d = elim (Status-cases r.status) [
  | inl e ↦ rw (e, counted) refl
  | inr (inl e) ↦ rw (e, counted) refl
  | inr (inr (inl e)) ↦ rw (e, counted) refl
  | inr (inr (inr e)) ↦ rw (e, counted) refl
]

kept_failures :
    (r : CheckResult) (d : Doctor)
    → is_failed r ≡ false
    → d.failed ≡ failures d.printed
    → d.failed ≡ (if is_failed r then 1 else 0) + failures d.printed
kept_failures r d e h = grind (arith, h, e)

counted-failures :
    (name : String) (r : CheckResult) (d : Doctor)
    → d.failed ≡ failures d.printed
    → (counted name r d).failed ≡ failures (counted name r d).printed
unfolding counted count_if is_failed
counted-failures name r d h = elim (Status-cases r.status) [
  | inl e ↦
      let one : is_failed r ≡ true = rw (e, is_failed) refl in
      rw (e, counted, count_if) (grind (arith, h, one))
  | inr (inl e) ↦ rw (e, counted, count_if) (kept_failures r d (rw (e, is_failed) refl) h)
  | inr (inr (inl e)) ↦ rw (e, counted, count_if) (kept_failures r d (rw (e, is_failed) refl) h)
  | inr (inr (inr e)) ↦ rw (e, counted, count_if) (kept_failures r d (rw (e, is_failed) refl) h)
]

has_failed-failures :
    (printed : List (String × CheckResult)) (name : String)
    → has_failed printed name ≡ true
    → (failures printed == 0) ≡ false
unfolding has_failed count_if
has_failed-failures [] name h = ground (arith, h)
has_failed-failures ((n, r) ∷ rs) name h = elim (Bool-cases (has_failed rs name)) [
  | inl e ↦ ground (arith, h, has_failed-failures rs name e)
  | inr e ↦ ground (arith, h, e)
]

module _ {W : Type 0} where
  check-names :
      (name : String) (fn : W → Result CheckResult × W) (d : Doctor) (w : W)
      → names (check name fn (d, w)).0.printed ≡ name ∷ names d.printed
  unfolding check
  check-names name fn d w = elim (Option-cases d.blocked_reason) [
    | inl e ↦ rw (e, check) (counted-names name (outcome (fn w).0) d)
    | inr (reason, e) ↦
        rw (e, check) (counted-names name (found status_skip (append "skipped: " reason)) d)
  ]

  check-failures :
      (name : String) (fn : W → Result CheckResult × W) (d : Doctor) (w : W)
      → d.failed ≡ failures d.printed
      → (check name fn (d, w)).0.failed ≡ failures (check name fn (d, w)).0.printed
  unfolding check
  check-failures name fn d w h = elim (Option-cases d.blocked_reason) [
    | inl e ↦ rw (e, check) (counted-failures name (outcome (fn w).0) d h)
    | inr (reason, e) ↦
        rw (e, check) (counted-failures name (found status_skip (append "skipped: " reason)) d h)
  ]

  block-printed :
      (name reason : String) (d : Doctor) (w : W)
      → ((block_if_failed name reason (d, w)).0.printed ≡ d.printed)
        × ((block_if_failed name reason (d, w)).0.failed ≡ d.failed)
        × ((block_if_failed name reason (d, w)).1 ≡ w)
  unfolding block_if_failed block
  block-printed name reason d w = elim (Bool-cases (has_failed d.printed name)) [
    | inl e ↦ rw (e, block_if_failed) (refl, refl, refl)
    | inr e ↦ rw (e, block_if_failed) (refl, refl, refl)
  ]

  run_lines-names :
      (ls : List (Line W)) (s : Doctor × W)
      → names (run_lines ls s).0.printed ≡ names_after ls (names s.0.printed)
  unfolding run_lines
  run_lines-names [] s = refl
  run_lines-names (checks name fn ∷ ls) (d, w) =
      run_lines-names ls (check name fn (d, w)) ∙ ap (names_after ls) (check-names name fn d w)
  run_lines-names (blocks name reason ∷ ls) (d, w) =
      run_lines-names ls (block_if_failed name reason (d, w))
      ∙ ap (λ p. names_after ls (names p)) (block-printed name reason d w).0

  run_lines-failures :
      (ls : List (Line W)) (s : Doctor × W)
      → s.0.failed ≡ failures s.0.printed
      → (run_lines ls s).0.failed ≡ failures (run_lines ls s).0.printed
  unfolding run_lines
  run_lines-failures [] s h = h
  run_lines-failures (checks name fn ∷ ls) (d, w) h =
      run_lines-failures ls (check name fn (d, w)) (check-failures name fn d w h)
  run_lines-failures (blocks name reason ∷ ls) (d, w) h =
      let kept = block-printed name reason d w in
      run_lines-failures ls (block_if_failed name reason (d, w))
        (kept.1 ∙ h ∙ ap failures (sym kept.0))

  -- A blocked check.
  check-blocked :
      (name : String) (fn : W → Result CheckResult × W) (d : Doctor) (w : W) (reason : String)
      → d.blocked_reason ≡ some reason
      → ((check name fn (d, w)).0.blocked_reason ≡ some reason)
        × ((check name fn (d, w)).0.failed ≡ d.failed)
        × ((check name fn (d, w)).1 ≡ w)
  unfolding check counted
  check-blocked name fn d w reason e = rw (e, check) (e, refl, refl)

  still-blocked :
      (name why : String) (d : Doctor) (w : W) (reason : String)
      → d.blocked_reason ≡ some reason
      → (r : String) × ((block_if_failed name why (d, w)).0.blocked_reason ≡ some r)
  unfolding block_if_failed block
  still-blocked name why d w reason h = elim (Bool-cases (has_failed d.printed name)) [
    | inl e ↦ rw (e, block_if_failed) (why, refl)
    | inr e ↦ rw (e, block_if_failed) (reason, h)
  ]

  -- Behind a block no check is made: the world stays as it is, and nothing more fails.
  pub run_lines-blocked :
      (ls : List (Line W)) (d : Doctor) (w : W) (reason : String)
      → d.blocked_reason ≡ some reason
      → ((run_lines ls (d, w)).1 ≡ w) × ((run_lines ls (d, w)).0.failed ≡ d.failed)
  unfolding run_lines
  run_lines-blocked [] d w reason e = (refl, refl)
  run_lines-blocked (checks name fn ∷ ls) d w reason e =
      let (on, failed, same) = check-blocked name fn d w reason e in
      let after = check name fn (d, w) in
      let (world, more) = run_lines-blocked ls after.0 after.1 reason on in
      (world ∙ same, more ∙ failed)
  run_lines-blocked (blocks name why ∷ ls) d w reason e =
      let (r, on) = still-blocked name why d w reason e in
      let (_, failed, same) = block-printed name why d w in
      let after = block_if_failed name why (d, w) in
      let (world, more) = run_lines-blocked ls after.0 after.1 r on in (world ∙ same, more ∙ failed)

  pub failed-blocks :
      (name reason : String) (ls : List (Line W)) (d : Doctor) (w : W)
      → has_failed d.printed name ≡ true
      → ((run_lines (blocks name reason ∷ ls) (d, w)).1 ≡ w)
        × ((run_lines (blocks name reason ∷ ls) (d, w)).0.failed ≡ d.failed)
  unfolding run_lines block_if_failed block
  failed-blocks name reason ls d w e =
      rw (e, run_lines) (run_lines-blocked ls (block reason d) w reason refl)

  -- The exit code is 0 if none of the results is a failure and 1 otherwise. Either the version of
  -- Python has failed, and it alone is printed, or all the checks are, in their order.
  pub main-IsDiagnosed :
      (c : Checks W) (w : W)
      → ((main c w).0 ≡ (if failures (main c w).1.0.printed == 0 then 0 else 1))
        × ((names (main c w).1.0.printed ≡ "python version" ∷ []) × ((main c w).0 ≡ 1)
            ⊎ (names (main c w).1.0.printed ≡ names_after (later_lines c) ("python version" ∷ [])))
  unfolding main exit_code count_if
  main-IsDiagnosed c w =
      let first = check "python version" c.check_python (new_doctor, w) in
      let one = check-failures "python version" c.check_python new_doctor w refl in
      elim (Bool-cases (has_failed first.0.printed "python version")) [
        | inl e ↦
            rw (e, main)
              (
                sym (
                    ap (λ b. if b then 0 else 1)
                      (has_failed-failures first.0.printed "python version" e)),
                inl (check-names "python version" c.check_python new_doctor w, refl),
              )
        | inr e ↦
            rw (e, main)
              (
                ap (λ n. if n == 0 then 0 else 1) (run_lines-failures (later_lines c) first one),
                inr (
                    run_lines-names (later_lines c) first
                    ∙ ap (names_after (later_lines c))
                        (check-names "python version" c.check_python new_doctor w)),
              )
      ]
