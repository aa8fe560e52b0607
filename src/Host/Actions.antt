-- ===== src/Host/Actions.antt =====
-- The operations of HostRotationService on the items of the live rotation
-- (app/core/host_rotation_service.py).
pub mod Advance
use scales_infrastructure.Prelude.{
  ℕ, suc, ◌+◌, Bool, true, false, not, ◌&&◌, Option, none, some, List, [], ◌∷◌, ◌++◌, map, max,
  is_value, get_or, any_of, every, find, select, sort, by_key, group_by, group_at, concat_groups,
  update_where, ◌==◌, if◌then◌else◌,
}
use scales_infrastructure.Models.Tables.{completed, skipped, HostRotation, Tables}
use scales_infrastructure.Models.Session.{
  Clock, unknown_ids, bad_status, Action, pure, gets, raise_if, modify, commit, ◌>>=◌, ◌>>◌,
}
use scales_infrastructure.Queue.Rows.{is_now_playing}
use scales_infrastructure.Queue.Removal.{record_removal}
use scales_infrastructure.Host.Rows.{
  has_id, active_at, placed_at, is_completable, is_skippable, get_item, get_active_items,
  write_rows, reload,
}
use scales_infrastructure.Host.Broadcast.{broadcast_queue_state, auto_advance}
use scales_infrastructure.Host.Snapshot.{deleted_row}

-- The end of an operation: the broadcast, and the item as it now is.
unfoldable pub show : Clock → ℕ → HostRotation → Action HostRotation
show c v item = do broadcast_queue_state c v; reload item

abbrev pub complete_row : ℕ → HostRotation → HostRotation
complete_row now r = record r { status = completed; completed_at = some now; updated_at = some now }

-- `complete`: the next item starts only if this one was on stage.
unfoldable pub complete : Clock → ℕ → ℕ → Action HostRotation
complete c v rid = do
  item ← get_item v rid
  raise_if (not (is_completable item.status)) (bad_status item.status)
  write_rows (has_id rid) (complete_row c.now)
  commit
  if is_now_playing item.status then (auto_advance c v >> pure tt) else pure tt
  show c v item

abbrev pub skip_row : ℕ → HostRotation → HostRotation
skip_row now r = record r { status = skipped; completed_at = some now; updated_at = some now }

-- `skip`: auto-advance runs whatever the item's status was.
unfoldable pub skip : Clock → ℕ → ℕ → Action HostRotation
skip c v rid = do
  item ← get_item v rid
  raise_if (not (is_skippable item.status)) (bad_status item.status)
  write_rows (has_id rid) (skip_row c.now)
  commit
  auto_advance c v
  show c v item

abbrev pub place_row : ℕ → ℕ → HostRotation → HostRotation
place_row now n r = record r { rotation_position = some n; updated_at = some now }

-- `coalesce(max(rotation_position), 0)` of the selected rows
unfoldable pub max_position : List HostRotation → ℕ
max_position [] = 0
max_position (r ∷ rs) = max (get_or r.rotation_position 0) (max_position rs)

-- `skip_to_end`
unfoldable pub skip_to_end : Clock → ℕ → ℕ → Action HostRotation
skip_to_end c v rid = do
  item ← get_item v rid
  raise_if (not (is_skippable item.status)) (bad_status item.status)
  max_pos ← gets (λ t. max_position (select (placed_at v) t.host_rotation))
  write_rows (has_id rid) (place_row c.now (max_pos + 1))
  commit
  show c v item

-- `remove`
unfoldable pub remove : Clock → ℕ → ℕ → Action (Unit {0})
remove c v rid = do
  get_item v rid
  write_rows (has_id rid) (deleted_row c.now)
  commit
  broadcast_queue_state c v

-- `for idx, rid in enumerate(ordered_ids, start=n)`: the writes of the loop.
unfoldable pub set_positions : ℕ → ℕ → List ℕ → List HostRotation → List HostRotation
set_positions now n [] rows = rows
set_positions now n (rid ∷ rids) rows =
    set_positions now (suc n) rids (update_where (has_id rid) (place_row now n) rows)

-- `[existing[rid] for rid in ordered_ids]`
abbrev rows_of : List ℕ → List HostRotation → List HostRotation
rows_of [] rows = []
rows_of (rid ∷ rids) rows = elim (find (has_id rid) rows) [
  | none ↦ rows_of rids rows
  | some r ↦ r ∷ rows_of rids rows
]

-- `set(ordered_ids).issubset(existing.keys())`
abbrev pub all_placed : ℕ → List ℕ → List HostRotation → Bool
all_placed v ids rows = every (λ k. any_of (has_id k) (select (placed_at v) rows)) ids

unfoldable pub write_positions : Clock → List ℕ → Action (Unit {0})
write_positions c ids =
    modify (λ t. record t { host_rotation = set_positions c.now 1 ids t.host_rotation })

-- `reorder`
unfoldable pub reorder : Clock → ℕ → List ℕ → Action (List HostRotation)
reorder c v [] = gets (λ t. get_active_items v t.host_rotation)
reorder c v (rid ∷ rids) = do
  known ← gets (λ t. all_placed v (rid ∷ rids) t.host_rotation)
  raise_if (not known) unknown_ids
  write_positions c (rid ∷ rids)
  commit
  broadcast_queue_state c v
  gets (λ t. rows_of (rid ∷ rids) t.host_rotation)

-- `by_singer`, each group by time
abbrev pub singer_groups : List HostRotation → List (Option ℕ × List HostRotation)
singer_groups items =
    map
      (λ (kg : Option ℕ × List HostRotation).
        let e : Option ℕ × List HostRotation =
          (kg.0, sort (by_key (λ (r : HostRotation). get_or r.requested_at 0)) kg.1) in
        e)
      (group_by (λ (r : HostRotation). some r.singer_id) items)

-- The groups of the listed singers, in the order of the list.
abbrev listed_groups : List ℕ → List (Option ℕ × List HostRotation) → List HostRotation
listed_groups [] gs = []
listed_groups (sid ∷ sids) gs = group_at (some sid) gs ++ listed_groups sids gs

abbrev unlisted : List ℕ → Option ℕ × List HostRotation → Bool
unlisted sids kg = not (any_of (λ sid. is_value kg.0 sid) sids)

-- `ordered`: the listed singers, then all others.
unfoldable pub ordered_by_singer : List ℕ → List HostRotation → List HostRotation
ordered_by_singer sids items =
    let gs = singer_groups items in
    listed_groups sids gs ++ concat_groups (select (unlisted sids) gs)

-- `reorder_by_singer`
unfoldable pub reorder_by_singer : Clock → ℕ → List ℕ → Action (List HostRotation)
reorder_by_singer c v [] = gets (λ t. get_active_items v t.host_rotation)
reorder_by_singer c v (sid ∷ sids) = do
  ids ← gets λ t.
      map (λ (r : HostRotation). r.id)
        (ordered_by_singer (sid ∷ sids) (select (placed_at v) t.host_rotation))
  write_positions c ids
  commit
  broadcast_queue_state c v
  gets (λ t. rows_of ids t.host_rotation)

-- The active rows of the singer.
abbrev pub active_of : ℕ → ℕ → HostRotation → Bool
active_of v singer r = active_at v r && (r.singer_id == singer)

-- What follows the deletion of some rows.
unfoldable pub announce_removal : Clock → ℕ → ℕ → Option ℕ → Option ℕ → List ℕ → Action (Unit {0})
announce_removal c v singer account device [] = pure tt
announce_removal c v singer account device (rid ∷ rids) = do
  record_removal c v singer account device
  commit
  broadcast_queue_state c v

-- `remove_singer`
unfoldable pub remove_singer : Clock → ℕ → ℕ → Option ℕ → Option ℕ → Action (List ℕ)
remove_singer c v singer account device = do
  removed ← gets λ t. map (λ (r : HostRotation). r.id) (select (active_of v singer) t.host_rotation)
  write_rows (active_of v singer) (deleted_row c.now)
  announce_removal c v singer account device removed
  pure removed
