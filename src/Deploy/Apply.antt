-- ===== src/Deploy/Apply.antt =====
-- The deployment loop of `main` in scripts/deploy_snowflake_sql.py, over the statements of all files
-- in their order. What the warehouse answers to a statement, after those that it was sent before,
-- is the argument `accepts`.
use snowflake_trade_pipeline.Prelude.{
  ℕ, ◌+◌, ◌≤◌, ◌≡◌, refl, sym, ap, ◌∙◌, inl, inr, Bool, true, false, List, [], ◌∷◌, ◌++◌, arith,
  length, length-append, if◌then◌else◌, Bool-cases,
}
use mathlib.Core.Path.{subst}
use mathlib.Core.List.{append_assoc, append-nil}
use snowflake_trade_pipeline.Deploy.{Statement}

pub record Deployment : Type 0 where
  pub sent : List Statement
  pub applied : ℕ
  pub failures : List Statement
  pub stopped : Bool

abbrev pub is_nil : List Statement → Bool
is_nil [] = true
is_nil (_ ∷ _) = false

-- What `main` returns.
unfoldable pub exit_code : Deployment → ℕ
exit_code d = if d.stopped then 1 else if is_nil d.failures then 0 else 1

abbrev pub not_started : Deployment
not_started = record { sent = []; applied = 0; failures = []; stopped = false }

if_true : (b : Bool) (x y : Deployment) → b ≡ true → (if b then x else y) ≡ x
if_true true x y e = refl
if_true false x y e = absurd cc

if_false : (b : Bool) (x y : Deployment) → b ≡ false → (if b then x else y) ≡ y
if_false true x y e = absurd cc
if_false false x y e = refl

module _ (accepts : List Statement → Statement → Bool) (continue_on_error : Bool) where
  unfoldable pub send : Statement → Deployment → Deployment
  send s d =
      if accepts d.sent s
      then record d { sent = d.sent ++ s ∷ []; applied = d.applied + 1 }
      else record d {
        sent = d.sent ++ s ∷ [];
        failures = d.failures ++ s ∷ [];
        stopped = if continue_on_error then false else true;
      }

  unfoldable pub deploy : List Statement → Deployment → Deployment
  deploy [] d = d
  deploy (s ∷ plan) d = let rest = deploy plan (send s d) in if d.stopped then d else rest

  deploy-stopped :
      (s : Statement) (plan : List Statement) (d : Deployment)
      → d.stopped ≡ true
      → deploy (s ∷ plan) d ≡ d
  unfolding deploy
  deploy-stopped s plan d e = if_true d.stopped d (deploy plan (send s d)) e

  deploy-next :
      (s : Statement) (plan : List Statement) (d : Deployment)
      → d.stopped ≡ false
      → deploy (s ∷ plan) d ≡ deploy plan (send s d)
  unfolding deploy
  deploy-next s plan d e = if_false d.stopped d (deploy plan (send s d)) e

  -- What holds between two statements.
  record IsTallied (d : Deployment) : Type 0 where
    pub tallied : d.applied + length d.failures ≡ length d.sent
    pub careful : continue_on_error ≡ false → length d.failures ≡ (if d.stopped then 1 else 0)

  send-sent : (s : Statement) (d : Deployment) → (send s d).sent ≡ d.sent ++ s ∷ []
  unfolding send
  send-sent s d = elim (Bool-cases (accepts d.sent s)) [ inl e ↦ rw e refl | inr e ↦ rw e refl ]

  send-IsTallied :
      (s : Statement) (d : Deployment) → d.stopped ≡ false → IsTallied d → IsTallied (send s d)
  unfolding send
  send-IsTallied s d on t = elim (Bool-cases (accepts d.sent s)) [
    | inl e ↦ rw e record {
      tallied = omega (arith, t.tallied, length-append d.sent (s ∷ []));
      careful = t.careful;
    }
    | inr e ↦ rw e record {
      tallied =
          omega
            (arith, t.tallied, length-append d.sent (s ∷ []), length-append d.failures (s ∷ []));
      careful = λ stop.
          let none_yet : length d.failures ≡ 0 = rw on at t.careful stop in
          rw stop (omega (arith, none_yet, length-append d.failures (s ∷ [])));
    }
  ]

  deploy-IsTallied :
      (plan : List Statement) (d : Deployment) → IsTallied d → IsTallied (deploy plan d)
  unfolding deploy
  deploy-IsTallied [] d t = t
  deploy-IsTallied (s ∷ plan) d t = elim (Bool-cases d.stopped) [
    | inl e ↦ subst (λ r. IsTallied r) (sym (deploy-stopped s plan d e)) t
    | inr e ↦
        subst (λ r. IsTallied r) (sym (deploy-next s plan d e))
          (deploy-IsTallied plan (send s d) (send-IsTallied s d e t))
  ]

  -- The statements sent are the first of those planned, and all of them unless the loop stopped.
  abbrev IsSent : List Statement → Deployment → Type 0
  IsSent all d = (rest : List Statement) × (all ≡ d.sent ++ rest) × (d.stopped ≡ false → rest ≡ [])

  deploy-IsSent : (plan : List Statement) (d : Deployment) → IsSent (d.sent ++ plan) (deploy plan d)
  unfolding deploy
  deploy-IsSent [] d = ([], refl, λ e. refl)
  deploy-IsSent (s ∷ plan) d = elim (Bool-cases d.stopped) [
    | inl e ↦
        subst (λ r. IsSent (d.sent ++ s ∷ plan) r) (sym (deploy-stopped s plan d e))
          (s ∷ plan, refl, λ f. absurd (ground (arith, e, f)))
    | inr e ↦
        let (rest, same, whole) = deploy-IsSent plan (send s d) in
        subst (λ r. IsSent (d.sent ++ s ∷ plan) r) (sym (deploy-next s plan d e))
          (
            rest,
            sym (append_assoc d.sent (s ∷ []) plan)
                ∙ ap (λ l. l ++ plan) (sym (send-sent s d))
                ∙ same,
            whole,
          )
  ]

  -- What a deployment comes to.
  pub record IsDeployed (plan : List Statement) (d : Deployment) : Type 0 where
    pub ordered : IsSent plan d
    pub tallied : d.applied + length d.failures ≡ length d.sent
    pub careful : continue_on_error ≡ false → length d.failures ≤ 1
    pub succeeded : exit_code d ≡ 0 → (d.sent ≡ plan) × (d.applied ≡ length plan)

  none_failed : (xs : List Statement) → is_nil xs ≡ true → length xs ≡ 0
  none_failed [] h = refl
  none_failed (x ∷ xs) h = absurd (ground (arith, h))

  success :
      (plan : List Statement) (d : Deployment)
      → IsSent plan d
      → IsTallied d
      → exit_code d ≡ 0
      → (d.sent ≡ plan) × (d.applied ≡ length plan)
  unfolding exit_code
  success plan d (rest, same, whole) t h =
      let on : d.stopped ≡ false = ground (arith, h) in
      let quiet : is_nil d.failures ≡ true = ground (arith, h) in
      let all : d.sent ≡ plan =
        sym (append-nil d.sent) ∙ ap (λ l. d.sent ++ l) (sym (whole on)) ∙ sym same in
      (
        all,
        omega (
          arith,
          t.tallied,
          none_failed d.failures quiet,
          ap (λ (l : List Statement). length l) all,
        ),
      )

  at_most_one : (d : Deployment) → IsTallied d → continue_on_error ≡ false → length d.failures ≤ 1
  at_most_one d t stop = elim (Bool-cases d.stopped) [
    | inl e ↦ let n : length d.failures ≡ 1 = rw e at t.careful stop in omega (arith, n)
    | inr e ↦ let n : length d.failures ≡ 0 = rw e at t.careful stop in omega (arith, n)
  ]

  -- The statements are sent in the order of the plan, and each is applied or fails. Unless the
  -- deployment is to go on after an error it stops at the first, and its exit code is 0 only if
  -- every statement of the plan was sent and applied.
  pub deploy-IsDeployed : (plan : List Statement) → IsDeployed plan (deploy plan not_started)
  deploy-IsDeployed plan =
      let sent = deploy-IsSent plan not_started in
      let t =
        deploy-IsTallied plan not_started
          record { tallied = omega arith; careful = λ stop. refl } in
      record {
        ordered = sent;
        tallied = t.tallied;
        careful = at_most_one (deploy plan not_started) t;
        succeeded = success plan (deploy plan not_started) sent t;
      }
