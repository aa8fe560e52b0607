-- ===== src/Models/Session/Keeps.antt =====
-- Invariants of the tables that a session sees and of the durable ones, under services that add and
-- flush rows: one rule for each way to build an action. An invariant is kept whether the action
-- returns or raises.
use scales_infrastructure.Prelude.{
  ℕ, ◌≡◌, refl, sym, ◌∙◌, subst, Bool, true, false, Option, none, some, if◌then◌else◌,
}
use scales_infrastructure.Models.Tables.{Tables}
use scales_infrastructure.Models.Events.{Event}
use scales_infrastructure.Models.Session.{
  Pending, Session, Failure, Result, ok, err, Action, pure, gets, or_raise, raise_if, modify,
  commit, publish, best_effort, continue, ◌>>=◌,
}
use scales_infrastructure.Models.Session.Flush.{
  written, flush, finish_flush, keeps_constraints, has_null, add, new_key,
}

-- An action that makes nothing durable, and keeps the invariant of what the session sees.
pub record Quiet {A : Type 0} (P : Tables → Type 0) (m : Action A) : Type 0 where
  pub run :
      (s : Session) → P s.db → P s.committed → P (m s).1.db × ((m s).1.committed ≡ s.committed)

-- An action that keeps the invariant of both.
pub record Keeps {A : Type 0} (P : Tables → Type 0) (m : Action A) : Type 0 where
  pub run : (s : Session) → P s.db → P s.committed → P (m s).1.db × P (m s).1.committed

module _ {P : Tables → Type 0} where
  pub Quiet-pure : {A : Type 0} (a : A) → Quiet P (pure a)
  unfolding pure
  Quiet-pure a = record { run = λ s h k. (h, refl) }

  pub Quiet-gets : {A : Type 0} (f : Tables → A) → Quiet P (gets f)
  unfolding gets
  Quiet-gets f = record { run = λ s h k. (h, refl) }

  pub Quiet-or_raise : {A : Type 0} (o : Option A) (e : Failure) → Quiet P (or_raise o e)
  unfolding ◌>>=◌
  Quiet-or_raise none e = record { run = λ s h k. (h, refl) }
  Quiet-or_raise (some a) e = record { run = λ s h k. (h, refl) }

  pub Quiet-raise_if : (b : Bool) (e : Failure) → Quiet P (raise_if b e)
  unfolding ◌>>=◌
  Quiet-raise_if true e = record { run = λ s h k. (h, refl) }
  Quiet-raise_if false e = record { run = λ s h k. (h, refl) }

  pub Quiet-modify : (f : Tables → Tables) → ((t : Tables) → P t → P (f t)) → Quiet P (modify f)
  unfolding modify
  Quiet-modify f keep = record { run = λ s h k. (keep s.db h, refl) }

  pub Quiet-publish : (e : Event) → Quiet P (publish e)
  unfolding publish
  Quiet-publish e = record { run = λ s h k. (h, refl) }

  pub Quiet-add : (f : Pending → Pending) → Quiet P (add f)
  unfolding add
  Quiet-add f = record { run = λ s h k. (h, refl) }

  pub Quiet-new_key : (uuid : Tables → Pending → ℕ) → Quiet P (new_key uuid)
  unfolding new_key
  Quiet-new_key uuid = record { run = λ s h k. (h, refl) }

  -- Where the rows that a flush adds do no harm.
  pub Quiet-flush : ((p : Pending) (t : Tables) → P t → P (written p t)) → Quiet P flush
  unfolding flush
  Quiet-flush keep = record {
    run = λ s h k.
        go (has_null s.pending.queue_requests) (keeps_constraints (written s.pending s.db)) s h k;
  }
    where
      go :
          (null valid : Bool) (s : Session)
          → P s.db
          → P s.committed
          → P (finish_flush null valid s).1.db
            × ((finish_flush null valid s).1.committed ≡ s.committed)
      go true valid s h k = (k, refl)
      go false false s h k = (k, refl)
      go false true s h k = (keep s.pending s.db h, refl)

  pub Quiet-best_effort : (m : Action (Unit {0})) → Quiet P m → Quiet P (best_effort m)
  unfolding best_effort
  Quiet-best_effort m km = record { run = λ s h k. km.run s h k }

  pub Quiet-if :
      {A : Type 0} (b : Bool) (m n : Action A)
      → Quiet P m
      → Quiet P n
      → Quiet P (if b then m else n)
  Quiet-if true m n km kn = km
  Quiet-if false m n km kn = kn

  Quiet-continue :
      {A B : Type 0} (r : Result A) (f : A → Action B)
      → ((a : A) → Quiet P (f a))
      → Quiet P (continue r f)
  Quiet-continue (ok a) f kf = record { run = λ s h k. (kf a).run s h k }
  Quiet-continue (err e) f kf = record { run = λ s h k. (h, refl) }

  pub Quiet-bind :
      {A B : Type 0} (m : Action A) (f : A → Action B)
      → Quiet P m
      → ((a : A) → Quiet P (f a))
      → Quiet P (m >>= f)
  unfolding ◌>>=◌
  Quiet-bind m f km kf = record {
    run = λ s h k.
        let (r, s') = m s in
        let (h', e) = km.run s h k in
        let (d, e') = (Quiet-continue r f kf).run s' h' (subst P (sym e) k) in (d, e' ∙ e);
  }

  -- What is read comes from tables that meet the invariant.
  pub Quiet-read :
      {A B : Type 0} (f : Tables → A) (g : A → Action B)
      → ((t : Tables) → P t → Quiet P (g (f t)))
      → Quiet P (gets f >>= g)
  unfolding ◌>>=◌
  Quiet-read f g kg = record { run = λ s h k. (kg s.db h).run s h k }

  pub Keeps-Quiet : {A : Type 0} (m : Action A) → Quiet P m → Keeps P m
  Keeps-Quiet m q = record { run = λ s h k. let (d, e) = q.run s h k in (d, subst P (sym e) k) }

  pub Keeps-pure : {A : Type 0} (a : A) → Keeps P (pure a)
  unfolding pure
  Keeps-pure a = record { run = λ s h k. (h, k) }

  pub Keeps-commit : Keeps P commit
  unfolding commit
  Keeps-commit = record { run = λ s h k. (h, h) }

  pub Keeps-best_effort : (m : Action (Unit {0})) → Keeps P m → Keeps P (best_effort m)
  unfolding best_effort
  Keeps-best_effort m km = record { run = λ s h k. km.run s h k }

  pub Keeps-if :
      {A : Type 0} (b : Bool) (m n : Action A)
      → Keeps P m
      → Keeps P n
      → Keeps P (if b then m else n)
  Keeps-if true m n km kn = km
  Keeps-if false m n km kn = kn

  Keeps-continue :
      {A B : Type 0} (r : Result A) (f : A → Action B)
      → ((a : A) → Keeps P (f a))
      → Keeps P (continue r f)
  Keeps-continue (ok a) f kf = record { run = λ s h k. (kf a).run s h k }
  Keeps-continue (err e) f kf = record { run = λ s h k. (h, k) }

  pub Keeps-bind :
      {A B : Type 0} (m : Action A) (f : A → Action B)
      → Keeps P m
      → ((a : A) → Keeps P (f a))
      → Keeps P (m >>= f)
  unfolding ◌>>=◌
  Keeps-bind m f km kf = record {
    run = λ s h k.
        let (r, s') = m s in let (h', k') = km.run s h k in (Keeps-continue r f kf).run s' h' k';
  }

pub ruleset quiet_rules = (
  Quiet-pure, Quiet-gets, Quiet-or_raise, Quiet-modify, Quiet-publish, Quiet-add, Quiet-new_key,
  Quiet-best_effort, Quiet-if, Quiet-bind,
)
