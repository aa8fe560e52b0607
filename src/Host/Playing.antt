-- ===== src/Host/Playing.antt =====
-- Putting an item of the live rotation on stage (app/core/host_rotation_service.py,
-- `set_now_playing`).
pub mod Stage
use scales_infrastructure.Prelude.{
  ℕ, pos, Bool, true, false, not, ◌&&◌, Option, none, some, List, [], ◌∷◌, ◌++◌, String, find, ◌==◌,
  if◌then◌else◌,
}
use text.Mathlib.Text.{◌==◌ as str_eq}
use scales_infrastructure.Models.Tables.{now_playing, host, HostRotation, Tables}
use scales_infrastructure.Models.Events.{HostEntry}
use scales_infrastructure.Models.Session.{
  Clock, rotation_item_not_found, Action, pure, gets, or_raise, modify, ◌>>=◌, ◌>>◌,
}
use scales_infrastructure.Queue.Rotation.{text_or}
use scales_infrastructure.Host.Rows.{has_id, live_at, item_at, marked_at, write_rows, reload}
use scales_infrastructure.Host.Snapshot.{or_else, demoted_row}
use scales_infrastructure.Host.Broadcast.{host_rotation_out, broadcast_queue_state}

-- What is shown: a track of the DJ with its time, or an item of the rotation.
pub data Shown : Type 0 where
  dj_track : Option String → Option String → ℕ → Shown
  item_shown : HostEntry → Shown

-- The arguments of `set_now_playing` after the venue; `song_artist` is in none of the rows.
pub record Request : Type 0 where
  pub singer_id : Option ℕ
  pub song_id : Option ℕ
  pub song_title : Option String
  pub song_artist : Option String
  pub singer_name : Option String
  pub notes : Option String
  pub is_dj_track : Bool
  pub request_id : Option ℕ

abbrev pub of_singer : ℕ → ℕ → HostRotation → Bool
of_singer v singer r = live_at v r && (r.singer_id == singer)

-- `text or other`, where the text may be absent or empty.
abbrev first_text : Option String → String → String
first_text text other = text_or text other

-- `if text: row.field = text`
abbrev text_over : Option String → Option String → Option String
text_over none old = old
text_over (some t) old = if str_eq t "" then old else some t

-- The row that is made for a singer without one.
abbrev pub stage_row : ℕ → ℕ → ℕ → ℕ → Request → HostRotation
stage_row now v rid singer q = record {
  id = rid;
  venue_id = v;
  singer_id = singer;
  song_id = q.song_id;
  song_title = q.song_title;
  rotation_session_id = none;
  status = now_playing;
  sort_order = some 0;
  rotation_position = some 0;
  notes = some (first_text q.notes (text_or q.singer_name ""));
  reject_reason = none;
  tempo = pos 0;
  pitch = pos 0;
  source = host;
  kj_id = none;
  requested_at = some now;
  completed_at = none;
  updated_at = some now;
  deleted_at = none;
}

abbrev pub add_row : HostRotation → Action HostRotation
add_row r = do modify (λ t. record t { host_rotation = t.host_rotation ++ r ∷ [] }); pure r

-- The singer's row, or a new one.
abbrev pub row_of_singer :
    Clock → ℕ → (List HostRotation → ℕ) → ℕ → Request → Option HostRotation → Action HostRotation
row_of_singer c v uuid singer q (some r) = pure r
row_of_singer c v uuid singer q none = do
  rid ← gets (λ t. uuid t.host_rotation)
  add_row (stage_row c.now v rid singer q)

-- The row that is to play: by its key, or by its singer, if either is given.
unfoldable pub row_to_play :
    Clock
    → ℕ
    → (List HostRotation → ℕ)
    → Request
    → Option ℕ
    → Option ℕ
    → Action (Option HostRotation)
row_to_play c v uuid q (some rid) _ = do
  r ← or_raise (← gets (λ t. find (item_at v rid) t.host_rotation)) rotation_item_not_found
  pure (some r)
row_to_play c v uuid q none none = pure none
row_to_play c v uuid q none (some singer) = do
  found ← gets (λ t. find (of_singer v singer) t.host_rotation)
  r ← row_of_singer c v uuid singer q found
  pure (some r)

abbrev pub other_marked : ℕ → ℕ → HostRotation → Bool
other_marked v rid r = marked_at v r && not (has_id rid r)

abbrev pub staged_row : ℕ → Request → HostRotation → HostRotation
staged_row now q r = record r {
  status = now_playing;
  updated_at = some now;
  song_id = or_else q.song_id r.song_id;
  song_title = text_over q.song_title r.song_title;
  notes = text_over q.notes r.notes;
}

-- The end of `set_now_playing`, after its writes.
unfoldable pub announce_staged : Clock → ℕ → HostRotation → Action (Option Shown)
announce_staged c v r = do
  staged ← reload r
  broadcast_queue_state c v
  pure (some (item_shown (host_rotation_out staged none 0)))

-- The writes to `existing`, and the broadcast.
unfoldable pub stage : Clock → ℕ → Request → Option HostRotation → Action (Option Shown)
stage c v q none = pure none
stage c v q (some r) = do
  write_rows (other_marked v r.id) (demoted_row c.now)
  write_rows (has_id r.id) (staged_row c.now q)
  announce_staged c v r

-- `set_now_playing`
unfoldable pub set_now_playing :
    Clock → ℕ → (List HostRotation → ℕ) → Request → Action (Option Shown)
set_now_playing c v uuid q =
    if q.is_dj_track
    then pure (some (dj_track q.song_title q.song_artist c.now))
    else (row_to_play c v uuid q q.request_id q.singer_id >>= stage c v q)
