-- ===== src/Models/Session/Flush.antt =====
-- `db.add` and `flush` (SQLAlchemy, with `autoflush` off as in app/core/db.py). A flush writes the
-- pending rows, or fails on a constraint and takes the transaction back. The constraints are checked
-- on the tables as the flush leaves them.
use text.Mathlib.Text.{◌==◌ as str_eq}
use scales_infrastructure.Prelude.{
  ℕ, ◌≡◌, refl, Bool, true, false, not, ◌&&◌, Option, none, some, List, [], ◌∷◌, ◌++◌, ◌==◌, any_of,
  every, same, is_some, is_none,
}
use scales_infrastructure.Models.Tables.{
  Status, now_playing, QueueRequest, Singer, Song, VenueConfig, Tables,
}
use scales_infrastructure.Models.Session.{
  Pending, empty, Session, duplicate_key, null_song, Result, ok, err, Failure, Action,
}
use scales_infrastructure.Models.Session.Uncommitted.{Uncommitted}

module _ {ℓ} {A : Type ℓ} where
  abbrev pub all_distinct : (A → A → Bool) → List A → Bool
  all_distinct alike [] = true
  all_distinct alike (x ∷ xs) = not (any_of (alike x) xs) && all_distinct alike xs

abbrev shares_account : Singer → Singer → Bool
shares_account a b =
    (a.venue_id == b.venue_id) && is_some a.account_id && same a.account_id b.account_id

abbrev is_playing_status : Status → Bool
is_playing_status now_playing = true
is_playing_status _ = false

-- The condition of the unique index on the playing requests of a venue
-- (alembic/versions/20260731_012420_unique_now_playing_per_venue.py).
abbrev is_playing : QueueRequest → Bool
is_playing r = is_playing_status r.status && is_none r.deleted_at

abbrev is_member : Option ℕ → List Singer → Bool
is_member none rows = true
is_member (some k) rows = any_of (λ (r : Singer). r.id == k) rows

-- A request's singer and song, for the foreign keys.
abbrev has_parents : Tables → QueueRequest → Bool
has_parents t r =
    is_member r.singer_id t.singers && any_of (λ (p : Song). p.id == r.song_id) t.songs

-- The primary keys, the unique constraints and indexes, and the foreign keys of requests, on the
-- tables that the flushed services write. Venues are not modelled, so neither are their keys.
unfoldable pub keeps_constraints : Tables → Bool
keeps_constraints t =
    all_distinct (λ (a b : Singer). a.id == b.id) t.singers
    && all_distinct
        (λ (a b : Singer). (a.venue_id == b.venue_id) && str_eq a.stage_name b.stage_name) t.singers
    && all_distinct (λ (a b : Song). a.id == b.id) t.songs
    && all_distinct (λ (a b : QueueRequest). a.id == b.id) t.queue_requests
    && all_distinct
        (λ (a b : VenueConfig). (a.venue_id == b.venue_id) && (a.config_key == b.config_key))
        t.venue_configs
    && all_distinct shares_account t.singers
    && all_distinct
        (λ (a b : QueueRequest). (a.venue_id == b.venue_id) && is_playing a && is_playing b)
        t.queue_requests
    && every (has_parents t) t.queue_requests

unfoldable pub known_rows : List (Option QueueRequest) → List QueueRequest
known_rows [] = []
known_rows (none ∷ rs) = known_rows rs
known_rows (some r ∷ rs) = r ∷ known_rows rs

abbrev pub has_null : List (Option QueueRequest) → Bool
has_null [] = false
has_null (none ∷ rs) = true
has_null (some r ∷ rs) = has_null rs

unfoldable pub written : Pending → Tables → Tables
unfolding known_rows
written p t = record t {
  singers = t.singers ++ p.singers;
  songs = t.songs ++ p.songs;
  queue_requests = t.queue_requests ++ known_rows p.queue_requests;
  venue_configs = t.venue_configs ++ p.venue_configs;
}

abbrev pub fail_flush : Failure → Session → Result (Unit {0}) × Session
fail_flush e s = (err e, record s { db = s.committed; pending = empty })

abbrev pub finish_flush : Bool → Bool → Session → Result (Unit {0}) × Session
finish_flush true valid s = fail_flush null_song s
finish_flush false false s = fail_flush duplicate_key s
finish_flush false true s = (ok tt, record s { db = written s.pending s.db; pending = empty })

unfoldable pub flush : Action (Unit {0})
flush s =
    finish_flush (has_null s.pending.queue_requests) (keeps_constraints (written s.pending s.db)) s

-- `db.add`
unfoldable pub add : (Pending → Pending) → Action (Unit {0})
add f s = (ok tt, record s { pending = f s.pending })

pub Uncommitted-flush : Uncommitted flush
unfolding flush
Uncommitted-flush = record {
  run = λ s.
      finish_flush-committed (has_null s.pending.queue_requests)
        (keeps_constraints (written s.pending s.db)) s;
}
  where
    finish_flush-committed :
        (null valid : Bool) (s : Session) → (finish_flush null valid s).1.committed ≡ s.committed
    finish_flush-committed true valid s = refl
    finish_flush-committed false true s = refl
    finish_flush-committed false false s = refl

pub Uncommitted-add : (f : Pending → Pending) → Uncommitted (add f)
unfolding add
Uncommitted-add f = record { run = λ s. refl }

-- A key that neither a row nor a pending row has, by a parameter.
unfoldable pub new_key : (Tables → Pending → ℕ) → Action ℕ
new_key uuid s = (ok (uuid s.db s.pending), s)

pub Uncommitted-new_key : (uuid : Tables → Pending → ℕ) → Uncommitted (new_key uuid)
unfolding new_key
Uncommitted-new_key uuid = record { run = λ s. refl }

pub ruleset uncommitted_flush = (Uncommitted-flush, Uncommitted-add, Uncommitted-new_key)
