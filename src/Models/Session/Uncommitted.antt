-- ===== src/Models/Session/Uncommitted.antt =====
-- Actions that make nothing durable: one rule for each way to build one without `commit`.
use scales_infrastructure.Prelude.{
  ◌≡◌, refl, ◌∙◌, Bool, true, false, Option, none, some, if◌then◌else◌, arith,
}
use scales_infrastructure.Models.Tables.{Tables}
use scales_infrastructure.Models.Events.{Event}
use scales_infrastructure.Models.Session.{
  Session, Failure, Result, ok, err, Action, pure, gets, or_raise, modify, publish, continue, ◌>>=◌,
}

pub record Uncommitted {A : Type 0} (m : Action A) : Type 0 where
  pub run : (s : Session) → (m s).1.committed ≡ s.committed

pub Uncommitted-pure : {A : Type 0} (a : A) → Uncommitted (pure a)
unfolding pure
Uncommitted-pure a = record { run = λ s. refl }

pub Uncommitted-gets : {A : Type 0} (f : Tables → A) → Uncommitted (gets f)
unfolding gets
Uncommitted-gets f = record { run = λ s. refl }

pub Uncommitted-or_raise : {A : Type 0} (o : Option A) (e : Failure) → Uncommitted (or_raise o e)
unfolding ◌>>=◌
Uncommitted-or_raise none e = record { run = λ s. refl }
Uncommitted-or_raise (some a) e = record { run = λ s. refl }

pub Uncommitted-modify : (f : Tables → Tables) → Uncommitted (modify f)
unfolding modify
Uncommitted-modify f = record { run = λ s. refl }

pub Uncommitted-publish : (e : Event) → Uncommitted (publish e)
unfolding publish
Uncommitted-publish e = record { run = λ s. refl }

pub Uncommitted-if :
    {A : Type 0} (b : Bool) (m n : Action A)
    → Uncommitted m
    → Uncommitted n
    → Uncommitted (if b then m else n)
Uncommitted-if true m n km kn = km
Uncommitted-if false m n km kn = kn

Uncommitted-continue :
    {A B : Type 0} (r : Result A) (f : A → Action B)
    → ((a : A) → Uncommitted (f a))
    → Uncommitted (continue r f)
Uncommitted-continue (ok a) f kf = record { run = λ s. (kf a).run s }
Uncommitted-continue (err e) f kf = record { run = λ s. refl }

pub Uncommitted-bind :
    {A B : Type 0} (m : Action A) (f : A → Action B)
    → Uncommitted m
    → ((a : A) → Uncommitted (f a))
    → Uncommitted (m >>= f)
unfolding ◌>>=◌
Uncommitted-bind m f km kf = record {
  run = λ s. let (r, s') = m s in (Uncommitted-continue r f kf).run s' ∙ km.run s;
}

continue-err :
    {A B : Type 0} (t : Tables) (f : A → Action B) (e : Failure) (r : Result A) (s : Session)
    → ((a : A) (s' : Session) → (f a s').0 ≡ err e → (f a s').1.committed ≡ s'.committed)
    → s.committed ≡ t
    → (continue r f s).0 ≡ err e
    → (continue r f s).1.committed ≡ t
continue-err t f e (ok a) s kf h g = kf a s g ∙ h
continue-err t f e (err d) s kf h g = h

-- A chain that raises has made nothing durable, if its first action makes nothing durable and the
-- rest does not where it raises.
pub bind-err :
    {A B : Type 0} (m : Action A) (f : A → Action B) (e : Failure) (s : Session)
    → (m s).1.committed ≡ s.committed
    → ((a : A) (s' : Session) → (f a s').0 ≡ err e → (f a s').1.committed ≡ s'.committed)
    → ((m >>= f) s).0 ≡ err e
    → ((m >>= f) s).1.committed ≡ s.committed
unfolding ◌>>=◌
bind-err m f e s h kf g = let (r, s') = m s in continue-err s.committed f e r s' kf h g

-- The same for a result that is only changed.
pub bind-err_pure :
    {A B : Type 0} (m : Action A) (f : A → B) (e : Failure) (s : Session)
    → ((d : Failure) → (m s).0 ≡ err d → (m s).1.committed ≡ s.committed)
    → ((m >>= λ a. pure (f a)) s).0 ≡ err e
    → ((m >>= λ a. pure (f a)) s).1.committed ≡ s.committed
unfolding ◌>>=◌
bind-err_pure {A = A} m f e s h g = let (r, s') = m s in go r s' h g
  where
    go :
        (r : Result A) (s' : Session)
        → ((d : Failure) → r ≡ err d → s'.committed ≡ s.committed)
        → (continue r (λ a. pure (f a)) s').0 ≡ err e
        → (continue r (λ a. pure (f a)) s').1.committed ≡ s.committed
    go (ok a) s' h g = absurd (ground (arith, g))
    go (err d) s' h g = h d refl

pub ruleset uncommitted_rules = (
  Uncommitted-pure, Uncommitted-gets, Uncommitted-or_raise, Uncommitted-modify, Uncommitted-publish,
  Uncommitted-if, Uncommitted-bind,
)
