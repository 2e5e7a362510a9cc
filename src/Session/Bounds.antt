-- ===== src/Session/Bounds.antt =====
-- What `connect` of ingestion/src/trade_sim/loaders/snowflake_loader.py costs whatever the driver
-- answers: the attempts and the seconds waited.
use snowflake_trade_pipeline.Prelude.{
  ℕ, zero, suc, ◌+◌, ◌-◌, ◌^◌, ◌≤◌, ◌≡◌, refl, inl, inr, List, [], ◌∷◌, arith, Option-cases,
}
use native.Mathlib.Nat.{two-pow-succ, pow-le-pow_right}
use snowflake_trade_pipeline.Session.{
  Call, dials, sleeps, Driver, Session, connect_from, open_connection, connect,
}
use snowflake_trade_pipeline.Session.Retries.{
  Attempt-cases, connect-closed, connect-open, connect_from-refused, connect_from-last,
}

abbrev pub dialled : List Call → ℕ
dialled [] = 0
dialled (dials ∷ calls) = suc (dialled calls)
dialled (_ ∷ calls) = dialled calls

abbrev pub waited : List Call → ℕ
waited [] = 0
waited (sleeps seconds ∷ calls) = seconds + waited calls
waited (_ ∷ calls) = waited calls

pow_suc : (a : ℕ) → 2 ^ suc a ≡ 2 ^ a + 2 ^ a
pow_suc a = two-pow-succ a

pow_mono : {a b : ℕ} → a ≤ b → 2 ^ a ≤ 2 ^ b
pow_mono h = pow-le-pow_right (omega arith) h

module _ (driver : Driver) (max_retries : ℕ) where
  -- From this attempt on, of which `left` follow: the calls before and after.
  abbrev AreWithin : ℕ → ℕ → List Call → List Call → Type 0
  AreWithin attempt left before after =
      (dialled after ≤ dialled before + suc left)
      × (waited after + 2 ^ attempt ≤ waited before + 2 ^ max_retries)

  ended :
      (attempt left : ℕ) (calls : List Call)
      → attempt + left ≡ max_retries
      → AreWithin attempt left calls (dials ∷ calls)
  ended attempt left calls h =
      let grown : 2 ^ attempt ≤ 2 ^ max_retries = pow_mono (omega arith) in
      (omega arith, omega (arith, grown))

  waited_on :
      (attempt left : ℕ) (calls after : List Call)
      → AreWithin (suc attempt) left (sleeps (2 ^ attempt) ∷ dials ∷ calls) after
      → AreWithin attempt (suc left) calls after
  waited_on attempt left calls after h = (omega (arith, h.0), omega (arith, h.1, pow_suc attempt))

  connect_from-AreWithin :
      (attempt left : ℕ) (s : Session)
      → attempt + left ≡ max_retries
      → AreWithin attempt left s.calls
          (connect_from driver max_retries attempt (suc left) s).1.calls
  unfolding connect_from
  connect_from-AreWithin attempt zero s h = elim (Attempt-cases (driver.dial s.calls)) [
    | inl (c, e) ↦ rw (e, connect_from) (ended attempt zero s.calls h)
    | inr (inr (x, e)) ↦ rw (e, connect_from) (ended attempt zero s.calls h)
    | inr (inl e) ↦
        rw (connect_from-last driver max_retries attempt zero s e (omega (arith, h)))
          (ended attempt zero s.calls h)
  ]
  connect_from-AreWithin attempt (suc left) s h = elim (Attempt-cases (driver.dial s.calls)) [
    | inl (c, e) ↦ rw (e, connect_from) (ended attempt (suc left) s.calls h)
    | inr (inr (x, e)) ↦ rw (e, connect_from) (ended attempt (suc left) s.calls h)
    | inr (inl e) ↦
        let t : Session = record s { calls = sleeps (2 ^ attempt) ∷ dials ∷ s.calls } in
        rw (connect_from-refused driver max_retries attempt (suc left) s e (omega (arith, h))) (
          waited_on attempt left s.calls
            (connect_from driver max_retries (suc attempt) (suc left) t).1.calls
            (connect_from-AreWithin (suc attempt) left t (omega (arith, h))))
  ]

  abbrev pub AreBounded : Session → Session → Type 0
  AreBounded before after =
      (dialled after.calls ≤ dialled before.calls + max_retries)
      × (waited after.calls ≤ waited before.calls + (2 ^ max_retries - 2))

  loop-AreBounded :
      (n : ℕ) (s : Session)
      → n ≡ max_retries
      → AreBounded s (connect_from driver max_retries 1 n s).1
  unfolding connect_from
  loop-AreBounded zero s e = (omega arith, omega arith)
  loop-AreBounded (suc n) s e =
      let within = connect_from-AreWithin 1 n s (omega (arith, e)) in
      (omega (arith, within.0, e), omega (arith, within.1))

  -- Whatever the driver answers, `connect` makes no more attempts than are allowed, and waits for
  -- 2 ^ n - 2 seconds at most, where n is that number.
  pub connect-AreBounded : (s : Session) → AreBounded s (connect driver max_retries s).1
  connect-AreBounded s = elim (Option-cases (open_connection driver max_retries s)) [
    | inl e ↦ rw (connect-closed driver max_retries s e) (loop-AreBounded max_retries s refl)
    | inr (c, e) ↦ rw (connect-open driver max_retries s c e) (omega arith, omega arith)
  ]
