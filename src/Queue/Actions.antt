-- ===== src/Queue/Actions.antt =====
-- The operations of QueueService on one request (app/core/queue_service.py). All but `update` end
-- with a broadcast, which may itself raise after the change is committed.
pub mod Single
pub mod Outcome
pub mod Award
use scales_infrastructure.Prelude.{
  ℕ, pos, Bool, true, false, not, ◌&&◌, Option, none, some, List, [], ◌∷◌, map, String, is_none,
  is_some, is_value, count, select, update_where, ltb, ◌==◌, if◌then◌else◌,
}
use Prim.Native.String.{◌++◌}
use scales_infrastructure.Models.Tables.{
  approved, now_playing, completed, skipped, rejected, on_stage, perform, QueueRequest,
  SingerRemoval, Tables,
}
use scales_infrastructure.Models.Events.{
  request_approved, request_rejected, singer_removed, singer_completed, request_started,
  request_skipped, cancelled_action, edited_action,
}
use scales_infrastructure.Models.Session.{
  Clock, bad_status, already_playing, multiple_rows, unknown_singer, Action, pure, raise, or_raise,
  gets, raise_if, modify, commit, publish, best_effort, ◌>>=◌, ◌>>◌,
}
use scales_infrastructure.Notify.{notify_singer}
use scales_infrastructure.Points.{add_points}
use scales_infrastructure.Queue.Rows.{
  is_terminal, is_waiting, is_completable, is_skippable, active_at, id_in, get_item, write_row,
  reload, now_playing_row, song_of,
}
use scales_infrastructure.Queue.Rotation.{title_of, text_or}
use scales_infrastructure.Queue.Broadcast.{
  broadcast_queue_state, maybe_notify_position_change, start_row, auto_advance,
}

abbrev pub approve_row : ℕ → QueueRequest → QueueRequest
approve_row now r = record r { status = approved; updated_at = some now }

-- `approve`
pub approve : Clock → ℕ → ℕ → Action QueueRequest
approve c v rid = do
  item ← get_item v rid
  raise_if (is_terminal item.status) (bad_status item.status)
  write_row rid (approve_row c.now)
  commit
  publish (request_approved v rid)
  maybe_notify_position_change c v
  broadcast_queue_state c v
  reload item

abbrev pub reject_row : ℕ → Option String → QueueRequest → QueueRequest
reject_row now reason r = record r {
  status = rejected;
  reject_reason = reason;
  updated_at = some now;
}

-- `reject`
pub reject : Clock → ℕ → ℕ → Option String → Option String → Action QueueRequest
reject c v rid reason rejected_by = do
  item ← get_item v rid
  raise_if (is_terminal item.status) (bad_status item.status)
  song_title ← gets (λ t. title_of (song_of t.songs item.song_id))
  write_row rid (reject_row c.now reason)
  commit
  publish (
      request_rejected v rid item.singer_id item.song_id song_title reason rejected_by (some c.now))
  broadcast_queue_state c v
  reload item

-- The part of `start` after the row is written.
announce_start : Clock → ℕ → ℕ → QueueRequest → Action QueueRequest
announce_start c v rid item = do
  commit
  publish (request_started v rid false)
  best_effort (
      notify_singer c item.singer_id v on_stage "You're on stage!"
        "Your song is now playing. Break a leg!" item.id)
  broadcast_queue_state c v
  reload item

-- `start`: at most one request plays at a venue.
pub start : Clock → ℕ → ℕ → Action QueueRequest
start c v rid = do
  playing ← gets (λ t. now_playing_row v t.queue_requests)
  raise_if (is_some playing) already_playing
  item ← get_item v rid
  raise_if (not (is_waiting item.status)) (bad_status item.status)
  write_row rid (start_row c.now)
  announce_start c v rid item

abbrev pub complete_row : ℕ → QueueRequest → QueueRequest
complete_row now r = record r { status = completed; played_at = some now; updated_at = some now }

-- The award of `complete`. For a request without a singer the id is the text "None", which the
-- foreign key of the ledger refuses; nothing else is taken back, for all was committed just before.
unfoldable pub award : Clock → ℕ → ℕ → Option ℕ → Action (Unit {0})
unfolding add_points
award c v rid none = or_raise none unknown_singer
award c v rid (some singer) =
    add_points c v singer (pos 25) "Performance completed" (some perform) (some rid)

-- `complete`: 25 points for the singer, and the next request starts.
pub complete : Clock → ℕ → ℕ → Action QueueRequest
complete c v rid = do
  item ← get_item v rid
  raise_if (not (is_completable item.status)) (bad_status item.status)
  write_row rid (complete_row c.now)
  commit
  award c v rid item.singer_id
  publish (singer_completed v rid)
  auto_advance c v
  broadcast_queue_state c v
  reload item

abbrev pub skip_row : ℕ → QueueRequest → QueueRequest
skip_row now r = record r { status = skipped; played_at = some now; updated_at = some now }

-- `skip`
pub skip : Clock → ℕ → ℕ → Action QueueRequest
skip c v rid = do
  item ← get_item v rid
  raise_if (not (is_skippable item.status)) (bad_status item.status)
  write_row rid (skip_row c.now)
  commit
  publish (request_skipped v rid)
  auto_advance c v
  broadcast_queue_state c v
  reload item

abbrev pub delete_row : ℕ → QueueRequest → QueueRequest
delete_row now r = record r { deleted_at = some now; updated_at = some now }

-- `cancel`, and its alias `remove`
pub cancel : Clock → ℕ → ℕ → Action (Unit {0})
cancel c v rid = do
  get_item v rid
  write_row rid (delete_row c.now)
  commit
  publish (cancelled_action v rid)
  broadcast_queue_state c v

abbrev edit_notes : Option String → QueueRequest → QueueRequest
edit_notes none r = r
edit_notes (some text) r = record r { notes = some text }

abbrev edit_dedication : Option String → QueueRequest → QueueRequest
edit_dedication none r = r
edit_dedication (some name) r = record r {
  notes = some (text_or r.notes "" ++ ("\n[Dedication to " ++ (name ++ "]")));
}

abbrev pub edit_row : ℕ → Option String → Option String → QueueRequest → QueueRequest
edit_row now notes dedication_to r =
    let r' = edit_dedication dedication_to (edit_notes notes r) in
    record r' { updated_at = some now }

-- `update`
pub update : Clock → ℕ → ℕ → Option String → Option String → Action QueueRequest
update c v rid notes dedication_to = do
  item ← get_item v rid
  write_row rid (edit_row c.now notes dedication_to)
  commit
  publish (edited_action v rid)
  reload item
