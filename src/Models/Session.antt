-- ===== src/Models/Session.antt =====
-- A database session and the monad of the services: state, and exceptions that keep it.
-- `db` is what the session sees and `committed` what `commit` has made durable. A request's
-- session ends without a commit of its own (app/core/db.py, `get_db`).
pub mod Preserves
pub mod Uncommitted
pub mod Flush
pub mod Keeps
use scales_infrastructure.Prelude.{ℕ, Bool, true, false, Option, none, some, List, [], ◌∷◌, ◌++◌}
use scales_infrastructure.Models.Tables.{Tables, Status, Singer, Song, QueueRequest, VenueConfig}
use scales_infrastructure.Models.Events.{Event, Push}

-- Readings of the clock. The texts of `datetime.now(timezone.utc)` and of that time less a
-- number of seconds come from Python's datetime; an operation reads one second throughout. `iso_now`
-- is its `isoformat()`, which has microseconds: another text.
pub record Clock : Type 0 where
  pub now : ℕ
  pub iso_now : ℕ
  pub ago : ℕ → ℕ

-- Rows of `db.add` that no flush has written, which no query sees (the factory of app/core/db.py
-- has `autoflush` off). A `none` is a row of `queue_requests` whose song_id is NULL, which the column
-- does not take.
pub record Pending : Type 0 where
  pub singers : List Singer
  pub songs : List Song
  pub queue_requests : List (Option QueueRequest)
  pub venue_configs : List VenueConfig

abbrev pub empty : Pending
empty = record { singers = []; songs = []; queue_requests = []; venue_configs = [] }

pub record Session : Type 0 where
  pub db : Tables
  pub committed : Tables
  pub pending : Pending
  pub events : List Event
  pub pushes : List Push

-- The exceptions that the services raise.
pub data Failure : Type 0 where
  item_not_found already_playing unknown_ids day_out_of_range multiple_rows : Failure
  rotation_item_not_found unset_row duplicate_key null_song status_not_allowed unknown_singer :
      Failure
  local_singer_not_found already_linked target_singer_not_found merge_into_itself : Failure
  venue_access_denied : Failure
  bad_status : Status → Failure

pub data Result (A : Type 0) : Type 0 where
  ok : A → Result A
  err : Failure → Result A

abbrev pub Action : Type 0 → Type 0
Action A = Session → Result A × Session

module _ {A : Type 0} where
  pub pure : A → Action A
  pure a s = (ok a, s)

  pub raise : Failure → Action A
  raise e s = (err e, s)

  pub gets : (Tables → A) → Action A
  gets f s = (ok (f s.db), s)

  pub or_raise : Option A → Failure → Action A
  unfolding pure raise
  or_raise none e = raise e
  or_raise (some a) e = pure a

pub raise_if : Bool → Failure → Action (Unit {0})
unfolding pure raise
raise_if true e = raise e
raise_if false e = pure tt

pub modify : (Tables → Tables) → Action (Unit {0})
modify f s = (ok tt, record s { db = f s.db })

-- Nothing is pending in the services that use it; the others flush first.
pub commit : Action (Unit {0})
commit s = (ok tt, record s { committed = s.db })

-- `scalar_one_or_none`
pub one_or_none : {A : Type 0} → List A → Action (Option A)
unfolding pure raise
one_or_none [] = pure none
one_or_none (x ∷ []) = pure (some x)
one_or_none (_ ∷ _ ∷ _) = raise multiple_rows

-- What a failed flush does: the transaction is taken back.
pub rollback : Action (Unit {0})
rollback s = (ok tt, record s { db = s.committed; pending = empty })

-- QueueEventPublisher.publish: it swallows the failures of every transport.
pub publish : Event → Action (Unit {0})
publish e s = (ok tt, record s { events = s.events ++ e ∷ [] })

pub push : Push → Action (Unit {0})
push p s = (ok tt, record s { pushes = s.pushes ++ p ∷ [] })

-- `try: … except Exception: log`: what was written stays, the exception is dropped.
pub best_effort : Action (Unit {0}) → Action (Unit {0})
best_effort m s = (ok tt, (m s).1)

abbrev pub continue : {A B : Type 0} → Result A → (A → Action B) → Action B
continue (ok a) f s = f a s
continue (err e) f s = (err e, s)

infixl 5 ◌>>=◌ ◌>>◌
-- Its line opens the other ways to build an action.
unfoldable pub ◌>>=◌ : {A B : Type 0} → Action A → (A → Action B) → Action B
unfolding pure raise gets or_raise raise_if modify commit rollback publish push best_effort
    one_or_none
◌>>=◌ m f s = let (r, s') = m s in continue r f s'

abbrev pub ◌>>◌ : {A B : Type 0} → Action A → Action B → Action B
m >> k = m >>= λ _. k
