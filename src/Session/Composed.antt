-- ===== src/Session/Composed.antt =====
-- What a chain of methods of SnowflakeSession in
-- ingestion/src/trade_sim/loaders/snowflake_loader.py has sent when its result is used further.
use snowflake_trade_pipeline.Prelude.{◌≡◌, refl, sym, ◌∙◌, List, [], ◌++◌}
use mathlib.Core.List.{append-nil}
use snowflake_trade_pipeline.Result.{Error, Result, ok, err, ◌>>=◌, Yields}
use snowflake_trade_pipeline.Session.{Query, Session, Action, continue, return}
use snowflake_trade_pipeline.Session.Sending.{statements, HasSent, Sends}

pub err-Sends :
    (A : Type 0) (queries : List Query) (e : Error) → Sends {A = A} queries (return (err e))
err-Sends A queries e s = ([], queries, refl, sym (append-nil (statements s.calls)))

module _ {A : Type 0} (queries : List Query) (s : Session) where
  pub moved-HasSent :
      (r : Result A × Session) (t : Session)
      → statements t.calls ≡ statements r.1.calls
      → HasSent queries s r
      → HasSent queries s (r.0, t)
  moved-HasSent (ok a, u) t e h = e ∙ h
  moved-HasSent (err x, u) t e (taken, rest, split, all) = (taken, rest, split, e ∙ all)

  pub judged-HasSent :
      (t : Session) (x : Result A)
      → statements t.calls ≡ statements s.calls ++ queries
      → HasSent queries s (x, t)
  judged-HasSent t (ok a) h = h
  judged-HasSent t (err e) h = (queries, [], append-nil queries, h)

pub map-HasSent :
    {A B : Type 0} (queries : List Query) (s : Session) (f : A → B) (r : Result A × Session)
    → HasSent queries s r
    → HasSent queries s (continue r (λ a. return (ok (f a))))
map-HasSent queries s f (ok a, t) h = h
map-HasSent queries s f (err e, t) h = h

pub then-HasSent :
    {A B : Type 0} (queries : List Query) (s t : Session) (r : Result A) (f : A → Result B)
    → HasSent queries s (r, t)
    → HasSent queries s (r >>= f, t)
then-HasSent queries s t (ok a) f h = judged-HasSent queries s t (f a) h
then-HasSent queries s t (err e) f h = h

pub continue-Yields :
    {A B : Type 0} (P : Type 0) (r : Result A × Session) (f : A → Action B)
    → ((a : A) (t : Session) → Yields (λ _. P) (f a t).0)
    → Yields (λ _. P) (continue r f).0
continue-Yields P (ok a, t) f h = h a t
continue-Yields P (err e, t) f h = tt

pub map-Yields :
    {A B : Type 0} {Q : Type 0} (P : Type 0) (f : A → B)
    → Q
    → (r : Result A × Session) → Yields (λ _. P) r.0
    → Yields (λ _. Q × P) (continue r (λ a. return (ok (f a)))).0
map-Yields P f q (ok a, t) h = (q, h)
map-Yields P f q (err e, t) h = tt

pub Yields-const : {A P : Type 0} (r : Result A) → P → Yields (λ _. P) r
Yields-const (ok a) h = h
Yields-const (err e) h = tt
