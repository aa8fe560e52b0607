-- ===== src/Models/Session/Preserves.antt =====
-- Invariants of the tables under the operations of a service: one rule for each way to build an
-- action. The operation keeps the invariant whether it returns or raises.
use scales_infrastructure.Prelude.{Bool, true, false, Option, none, some, if◌then◌else◌}
use scales_infrastructure.Models.Tables.{Tables}
use scales_infrastructure.Models.Events.{Event, Push}
use scales_infrastructure.Models.Session.{
  Session, Failure, Result, ok, err, Action, pure, gets, or_raise, raise_if, modify, commit,
  publish, push, best_effort, continue, ◌>>=◌,
}

pub record Preserves {A : Type 0} (P : Tables → Type 0) (m : Action A) : Type 0 where
  pub run : (s : Session) → P s.db → P (m s).1.db

module _ {P : Tables → Type 0} where
  pub Preserves-pure : {A : Type 0} (a : A) → Preserves P (pure a)
  unfolding pure
  Preserves-pure a = record { run = λ s h. h }

  pub Preserves-gets : {A : Type 0} (f : Tables → A) → Preserves P (gets f)
  unfolding gets
  Preserves-gets f = record { run = λ s h. h }

  pub Preserves-or_raise : {A : Type 0} (o : Option A) (e : Failure) → Preserves P (or_raise o e)
  unfolding ◌>>=◌
  Preserves-or_raise none e = record { run = λ s h. h }
  Preserves-or_raise (some a) e = record { run = λ s h. h }

  pub Preserves-raise_if : (b : Bool) (e : Failure) → Preserves P (raise_if b e)
  unfolding ◌>>=◌
  Preserves-raise_if true e = record { run = λ s h. h }
  Preserves-raise_if false e = record { run = λ s h. h }

  pub Preserves-modify :
      (f : Tables → Tables) → ((t : Tables) → P t → P (f t)) → Preserves P (modify f)
  unfolding modify
  Preserves-modify f keep = record { run = λ s h. keep s.db h }

  pub Preserves-commit : Preserves P commit
  unfolding commit
  Preserves-commit = record { run = λ s h. h }

  pub Preserves-publish : (e : Event) → Preserves P (publish e)
  unfolding publish
  Preserves-publish e = record { run = λ s h. h }

  pub Preserves-push : (p : Push) → Preserves P (push p)
  unfolding push
  Preserves-push p = record { run = λ s h. h }

  pub Preserves-best_effort : (m : Action (Unit {0})) → Preserves P m → Preserves P (best_effort m)
  unfolding best_effort
  Preserves-best_effort m k = record { run = λ s h. k.run s h }

  pub Preserves-if :
      {A : Type 0} (b : Bool) (m n : Action A)
      → Preserves P m
      → Preserves P n
      → Preserves P (if b then m else n)
  Preserves-if true m n km kn = km
  Preserves-if false m n km kn = kn

  Preserves-continue :
      {A B : Type 0} (r : Result A) (f : A → Action B)
      → ((a : A) → Preserves P (f a))
      → Preserves P (continue r f)
  Preserves-continue (ok a) f kf = record { run = λ s h. (kf a).run s h }
  Preserves-continue (err e) f kf = record { run = λ s h. h }

  pub Preserves-bind :
      {A B : Type 0} (m : Action A) (f : A → Action B)
      → Preserves P m
      → ((a : A) → Preserves P (f a))
      → Preserves P (m >>= f)
  unfolding ◌>>=◌
  Preserves-bind m f km kf = record {
    run = λ s h. let (r, s') = m s in (Preserves-continue r f kf).run s' (km.run s h);
  }

pub ruleset preserves_rules = (
  Preserves-pure, Preserves-gets, Preserves-or_raise, Preserves-raise_if, Preserves-modify,
  Preserves-commit, Preserves-publish, Preserves-push, Preserves-best_effort, Preserves-if,
  Preserves-bind,
)
