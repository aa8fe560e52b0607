-- ===== src/Host/Snapshot.antt =====
-- The KJ desktop's snapshot of its rotation (app/core/host_rotation_service.py,
-- `upsert_snapshot`).
pub mod Lines
pub mod Settled
pub mod Loop
pub mod Exact
pub mod Allowed
pub mod Refused
use scales_infrastructure.Prelude.{
  ℕ, ℤ, Bool, true, false, not, ◌&&◌, Option, none, some, List, [], ◌∷◌, ◌++◌, String, is_none,
  is_some, is_value, any_of, every, get_or, map, select, update_where, if◌then◌else◌,
}
use scales_infrastructure.Models.Tables.{Status, approved, completed, host, HostRotation, Tables}
use scales_infrastructure.Models.Session.{
  Clock, duplicate_key, status_not_allowed, Action, gets, or_raise, pure, modify, rollback, ◌>>=◌,
  ◌>>◌,
}
use scales_infrastructure.Queue.Rows.{is_now_playing}
use scales_infrastructure.Queue.Rotation.{present}
use scales_infrastructure.Host.Rows.{has_id, at_venue, live_at, marked_at, write_rows}

-- An element of `items`; a key that is missing or empty is `none`.
pub record SnapshotItem : Type 0 where
  pub id : Option ℕ
  pub singer_id : ℕ
  pub song_id : Option ℕ
  pub song_title : Option String
  pub status : Status
  pub rotation_position : Option ℕ
  pub sort_order : Option ℕ
  pub notes : Option String
  pub reject_reason : Option String
  pub tempo : ℤ
  pub pitch : ℤ
  pub kj_id : Option String

-- `any(item.status == "now_playing" for item in items)`
abbrev pub any_playing : List SnapshotItem → Bool
any_playing items = any_of (λ (i : SnapshotItem). is_now_playing i.status) items

-- The demotion of the row that plays.
abbrev pub demoted_row : ℕ → HostRotation → HostRotation
demoted_row now r = record r { status = completed; completed_at = some now; updated_at = some now }

abbrev pub in_snapshot : List SnapshotItem → HostRotation → Bool
in_snapshot items r = any_of (λ (i : SnapshotItem). is_value i.id r.id) items

-- Live rows of the venue that the snapshot leaves out.
abbrev pub left_out : ℕ → List SnapshotItem → HostRotation → Bool
left_out v items r = live_at v r && not (in_snapshot items r)

abbrev pub deleted_row : ℕ → HostRotation → HostRotation
deleted_row now r = record r { deleted_at = some now; updated_at = some now }

-- `x if x else old`
abbrev pub or_else : Option ℕ → Option ℕ → Option ℕ
or_else none old = old
or_else (some x) old = some x

abbrev pub title_or : Option String → Option String → Option String
title_or none old = old
title_or (some t) old = some t

-- What an item writes to the row with its key, which it brings back if it was deleted.
abbrev pub updated_row : ℕ → Option ℕ → SnapshotItem → HostRotation → HostRotation
updated_row now session i r = record r {
  singer_id = i.singer_id;
  song_id = or_else i.song_id r.song_id;
  song_title = title_or i.song_title r.song_title;
  status = i.status;
  rotation_position = i.rotation_position;
  sort_order = i.sort_order;
  notes = i.notes;
  reject_reason = i.reject_reason;
  tempo = i.tempo;
  pitch = i.pitch;
  kj_id = i.kj_id;
  rotation_session_id = or_else session r.rotation_session_id;
  updated_at = some now;
  deleted_at = none;
}

abbrev pub new_row : ℕ → ℕ → Option ℕ → ℕ → SnapshotItem → HostRotation
new_row now v session rid i = record {
  id = rid;
  venue_id = v;
  singer_id = i.singer_id;
  song_id = i.song_id;
  song_title = present i.song_title;
  rotation_session_id = session;
  status = i.status;
  sort_order = i.sort_order;
  rotation_position = i.rotation_position;
  notes = i.notes;
  reject_reason = i.reject_reason;
  tempo = i.tempo;
  pitch = i.pitch;
  source = host;
  kj_id = i.kj_id;
  requested_at = some now;
  completed_at = none;
  updated_at = some now;
  deleted_at = none;
}

-- One pass of the loop over `items`, on an item with its key; `known` are the keys of
-- `existing_rows`. A key that some other row has makes the flush fail.
unfoldable pub upsert_row :
    ℕ → ℕ → Option ℕ → List ℕ → ℕ → SnapshotItem → List HostRotation → Option (List HostRotation)
upsert_row now v session known rid i rows =
    if any_of (is_value (some rid)) known
    then some (update_where (has_id rid) (updated_row now session i) rows)
    else (if any_of (has_id rid) rows
        then none
        else some (rows ++ new_row now v session rid i ∷ []))

abbrev pub and_then :
    Option (List HostRotation)
    → (List HostRotation → Option (List HostRotation))
    → Option (List HostRotation)
and_then none f = none
and_then (some rows) f = f rows

-- The loop over `items`; `uuid` gives an item without a key a new one.
unfoldable pub upsert_rows :
    ℕ
    → ℕ
    → (List HostRotation → ℕ)
    → Option ℕ
    → List ℕ
    → List SnapshotItem
    → List HostRotation
    → Option (List HostRotation)
upsert_rows now v uuid session known [] rows = some rows
upsert_rows now v uuid session known (i ∷ is) rows =
    and_then (upsert_row now v session known (get_or i.id (uuid rows)) i rows)
      (upsert_rows now v uuid session known is)

abbrev pub ids_of : List HostRotation → List ℕ
ids_of rows = map (λ (r : HostRotation). r.id) rows

-- The check constraint on `status` (app/models/__init__.py), which the queue's `approved` breaks.
abbrev pub is_allowed : Status → Bool
is_allowed approved = false
is_allowed _ = true

-- A flush that fails takes the transaction back; the constraint is checked on the rows as the flush
-- leaves them. The singers, songs and sessions of the items are ids of rows.
abbrev pub flush_rows : Option (List HostRotation) → Action (Unit {0})
flush_rows none = rollback >> or_raise none duplicate_key
flush_rows (some rows) =
    if every (λ (r : HostRotation). is_allowed r.status) rows
    then modify (λ t. record t { host_rotation = rows })
    else (rollback >> or_raise none status_not_allowed)

-- `upsert_snapshot`; its result is the keys removed.
unfoldable pub upsert_snapshot :
    Clock → ℕ → (List HostRotation → ℕ) → List SnapshotItem → Option ℕ → Action (List ℕ)
upsert_snapshot c v uuid items session = do
  if any_playing items then write_rows (marked_at v) (demoted_row c.now) else pure tt
  known ← gets (λ t. ids_of (select (at_venue v) t.host_rotation))
  removed ← gets (λ t. ids_of (select (left_out v items) t.host_rotation))
  write_rows (left_out v items) (deleted_row c.now)
  rows ← gets (λ t. upsert_rows c.now v uuid session known items t.host_rotation)
  flush_rows rows
  pure removed
