-- ===== src/Session/Retries.antt =====
-- `connect` of ingestion/src/trade_sim/loaders/snowflake_loader.py on a driver that refuses a
-- number of times.
use snowflake_trade_pipeline.Prelude.{
  ℕ, zero, suc, ◌+◌, ◌^◌, ◌≤◌, ◌<◌, ◌≡◌, refl, sym, ap, ◌∙◌, ◌⊎◌, inl, inr, none, some, List, ◌∷◌,
  arith, lt→ltb, le→not_ltb,
}
use snowflake_trade_pipeline.Result.{Error, runtime_error, ok, err}
use snowflake_trade_pipeline.Session.{
  Call, dials, sleeps, Attempt, opened, refused, broke, Driver, Session, connect_from,
  open_connection, connect,
}

pub Attempt-cases :
    (a : Attempt) → ((c : ℕ) × (a ≡ opened c)) ⊎ ((a ≡ refused) ⊎ ((e : Error) × (a ≡ broke e)))
Attempt-cases (opened c) = inl (c, refl)
Attempt-cases refused = inr (inl refl)
Attempt-cases (broke e) = inr (inr (e, refl))

-- The calls once the next `n` attempts have been refused, each with its wait.
abbrev pub refusals : ℕ → ℕ → List Call → List Call
refusals attempt zero calls = calls
refusals attempt (suc n) calls = refusals (suc attempt) n (sleeps (2 ^ attempt) ∷ dials ∷ calls)

module _ (driver : Driver) (max_retries : ℕ) where
  -- The driver refuses the next `n` attempts.
  abbrev pub AreRefused : ℕ → ℕ → List Call → Type 0
  AreRefused attempt zero calls = Unit
  AreRefused attempt (suc n) calls =
      (driver.dial calls ≡ refused)
      × AreRefused (suc attempt) n (sleeps (2 ^ attempt) ∷ dials ∷ calls)

  pub connect_from-refused :
      (attempt left : ℕ) (s : Session)
      → driver.dial s.calls ≡ refused
      → attempt < max_retries
      → connect_from driver max_retries attempt (suc left) s
        ≡ connect_from driver max_retries
            (suc attempt)
            left
            (record s { calls = sleeps (2 ^ attempt) ∷ dials ∷ s.calls })
  unfolding connect_from
  connect_from-refused attempt left s e h = rw (e, lt→ltb attempt max_retries h, connect_from) refl

  pub connect_from-last :
      (attempt left : ℕ) (s : Session)
      → driver.dial s.calls ≡ refused
      → max_retries ≤ attempt
      → connect_from driver max_retries attempt (suc left) s
        ≡ connect_from driver max_retries (suc attempt) left (record s { calls = dials ∷ s.calls })
  unfolding connect_from
  connect_from-last attempt left s e h = rw (e, le→not_ltb attempt max_retries h, connect_from) refl

  connect_from-opened :
      (attempt n left : ℕ) (s : Session) (c : ℕ)
      → attempt + left ≡ suc max_retries
      → n < left
      → AreRefused attempt n s.calls
      → driver.dial (refusals attempt n s.calls) ≡ opened c
      → connect_from driver max_retries attempt left s
        ≡ (ok c, record s { connection = some c; calls = dials ∷ refusals attempt n s.calls })
  unfolding connect_from
  connect_from-opened attempt n zero s c e h all o = absurd (omega arith)
  connect_from-opened attempt zero (suc left) s c e h all o = rw (o, connect_from) refl
  connect_from-opened attempt (suc n) (suc left) s c e h all o =
      connect_from-refused attempt left s all.0 (omega arith)
      ∙ connect_from-opened (suc attempt) n left
          (record s { calls = sleeps (2 ^ attempt) ∷ dials ∷ s.calls }) c (omega arith)
          (omega arith) all.1 o

  connect_from-exhausted :
      (attempt n : ℕ) (s : Session)
      → attempt + n ≡ max_retries
      → AreRefused attempt (suc n) s.calls
      → connect_from driver max_retries attempt (suc n) s
        ≡ (err runtime_error, record s { calls = dials ∷ refusals attempt n s.calls })
  unfolding connect_from
  connect_from-exhausted attempt zero s e all = connect_from-last attempt 0 s all.0 (omega arith)
  connect_from-exhausted attempt (suc n) s e all =
      connect_from-refused attempt (suc n) s all.0 (omega arith)
      ∙ connect_from-exhausted (suc attempt) n
          (record s { calls = sleeps (2 ^ attempt) ∷ dials ∷ s.calls }) (omega arith) all.1

  pub connect-closed :
      (s : Session)
      → open_connection driver max_retries s ≡ none
      → connect driver max_retries s ≡ connect_from driver max_retries 1 max_retries s
  unfolding connect
  connect-closed s closed = rw (closed, connect) refl

  pub connect-open :
      (s : Session) (c : ℕ)
      → open_connection driver max_retries s ≡ some c
      → connect driver max_retries s ≡ (ok c, s)
  unfolding connect
  connect-open s c e = rw (e, connect) refl

  -- If no connection is open and the driver refuses `n` attempts and then opens one, where `n` is
  -- less than the number of attempts allowed, then `connect` returns that connection and keeps it,
  -- having waited 2, 4, … seconds after the refusals.
  pub connect-opened :
      (n : ℕ) (s : Session) (c : ℕ)
      → open_connection driver max_retries s ≡ none
      → n < max_retries
      → AreRefused 1 n s.calls
      → driver.dial (refusals 1 n s.calls) ≡ opened c
      → connect driver max_retries s
        ≡ (ok c, record s { connection = some c; calls = dials ∷ refusals 1 n s.calls })
  connect-opened n s c closed h all o =
      connect-closed s closed ∙ connect_from-opened 1 n max_retries s c (omega arith) h all o

  -- If no connection is open and the driver refuses all attempts, of which at least one is allowed,
  -- then `connect` raises a RuntimeError, having dialled that often and waited between the attempts
  -- and not after the last.
  pub connect-exhausted :
      (n : ℕ) (s : Session)
      → open_connection driver max_retries s ≡ none
      → suc n ≡ max_retries
      → AreRefused 1 (suc n) s.calls
      → connect driver max_retries s
        ≡ (err runtime_error, record s { calls = dials ∷ refusals 1 n s.calls })
  connect-exhausted n s closed h all =
      connect-closed s closed
      ∙ ap (λ m. connect_from driver max_retries 1 m s) (sym h)
      ∙ connect_from-exhausted 1 n s (omega (arith, h)) all
