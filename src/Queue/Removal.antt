-- ===== src/Queue/Removal.antt =====
-- Taking a singer out of the rotation (app/core/queue_service.py,
-- `remove_singer_from_rotation`).
pub mod Effect
use scales_infrastructure.Prelude.{
  ℕ, Bool, true, false, ◌&&◌, Option, none, some, List, [], ◌∷◌, ◌++◌, map, is_none, is_value, ltb,
  ◌==◌, count, select, update_where, if◌then◌else◌,
}
use scales_infrastructure.Models.Tables.{rejected, QueueRequest, SingerRemoval, Tables}
use scales_infrastructure.Models.Events.{singer_removed}
use scales_infrastructure.Models.Session.{
  Clock, multiple_rows, Action, pure, gets, raise_if, modify, commit, publish, ◌>>=◌, ◌>>◌,
}
use scales_infrastructure.Queue.Rows.{active_at, id_in}
use scales_infrastructure.Queue.Broadcast.{broadcast_queue_state}

-- The active rows of the singer.
abbrev pub active_of : ℕ → ℕ → QueueRequest → Bool
active_of v singer r = active_at v r && is_value r.singer_id singer

abbrev pub removed_row : ℕ → QueueRequest → QueueRequest
removed_row now r = record r {
  status = rejected;
  reject_reason = some "Removed from rotation";
  updated_at = some now;
}

abbrev pub deleted_row : ℕ → QueueRequest → QueueRequest
deleted_row now r = record r { deleted_at = some now; updated_at = some now }

-- Removals of the singer that no client has acknowledged.
abbrev pub open_removal : ℕ → ℕ → SingerRemoval → Bool
open_removal v singer m = (m.venue_id == v) && (m.singer_id == singer) && is_none m.acknowledged_at

abbrev pub new_removal : ℕ → ℕ → ℕ → Option ℕ → Option ℕ → SingerRemoval
new_removal now v singer account device = record {
  venue_id = v;
  singer_id = singer;
  removed_by_device_id = device;
  removed_by_account_id = account;
  removed_at = some now;
  acknowledged_at = none;
}

abbrev pub add_removal : SingerRemoval → Action (Unit {0})
add_removal m = modify (λ t. record t { singer_removals = t.singer_removals ++ m ∷ [] })

-- A removal is recorded unless one is open; `scalar_one_or_none` raises on two.
unfoldable pub record_removal : Clock → ℕ → ℕ → Option ℕ → Option ℕ → Action (Unit {0})
record_removal c v singer account device = do
  existing ← gets (λ t. count (open_removal v singer) t.singer_removals)
  raise_if (ltb 1 existing) multiple_rows
  if existing == 0 then add_removal (new_removal c.now v singer account device) else pure tt

abbrev write_rows : (QueueRequest → Bool) → (QueueRequest → QueueRequest) → Action (Unit {0})
write_rows p f = modify (λ t. record t { queue_requests = update_where p f t.queue_requests })

-- `remove_singer_from_rotation`
pub remove_singer_from_rotation : Clock → ℕ → ℕ → Option ℕ → Option ℕ → Bool → Action (List ℕ)
remove_singer_from_rotation c v singer account device broadcast = do
  cancelled ←
      gets λ t. map (λ (r : QueueRequest). r.id) (select (active_of v singer) t.queue_requests)
  write_rows (active_of v singer) (removed_row c.now)
  record_removal c v singer account device
  write_rows (id_in cancelled) (deleted_row c.now)
  commit
  publish (singer_removed v singer)
  if broadcast then broadcast_queue_state c v else pure tt
  pure cancelled
