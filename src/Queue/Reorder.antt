-- ===== src/Queue/Reorder.antt =====
-- Changing the order of the queue (app/core/queue_service.py, `reorder`, `reorder_by_singer`,
-- `skip_to_end`).
pub mod Positions
use scales_infrastructure.Prelude.{
  ℕ, suc, ◌+◌, Bool, true, false, not, ◌&&◌, Option, none, some, List, [], ◌∷◌, ◌++◌, map, max,
  is_value, get_or, get_or, find, select, any_of, every, update_where, sort, by_key, group_by,
  group_at, concat_groups, if◌then◌else◌,
}
use scales_infrastructure.Models.Tables.{QueueRequest, Tables}
use scales_infrastructure.Models.Events.{
  reordered_action, reordered_by_singer_action, skipped_to_end_action,
}
use scales_infrastructure.Models.Session.{
  Clock, unknown_ids, bad_status, Action, pure, gets, raise_if, modify, commit, publish, ◌>>=◌,
  ◌>>◌,
}
use scales_infrastructure.Queue.Rows.{
  active_at, has_id, is_skippable, requested, get_item, write_row, reload,
}
use scales_infrastructure.Queue.Order.{Mode, get_active_queue}

abbrev pub place_row : ℕ → ℕ → QueueRequest → QueueRequest
place_row now n r = record r { rotation_position = some n; updated_at = some now }

-- `for idx, rid in enumerate(ordered_ids, start=n)`: the writes of the loop.
unfoldable pub set_positions : ℕ → ℕ → List ℕ → List QueueRequest → List QueueRequest
set_positions now n [] rows = rows
set_positions now n (rid ∷ rids) rows =
    set_positions now (suc n) rids (update_where (has_id rid) (place_row now n) rows)

-- `[existing[rid] for rid in ordered_ids]`
abbrev rows_of : List ℕ → List QueueRequest → List QueueRequest
rows_of [] rows = []
rows_of (rid ∷ rids) rows = elim (find (has_id rid) rows) [
  | none ↦ rows_of rids rows
  | some r ↦ r ∷ rows_of rids rows
]

-- `set(ordered_ids).issubset(existing.keys())`
abbrev pub all_active : ℕ → List ℕ → List QueueRequest → Bool
all_active v ids rows = every (λ k. any_of (has_id k) (select (active_at v) rows)) ids

abbrev write_positions : Clock → List ℕ → Action (Unit {0})
write_positions c ids =
    modify (λ t. record t { queue_requests = set_positions c.now 1 ids t.queue_requests })

-- `reorder`
pub reorder : Clock → ℕ → List ℕ → Mode → Action (List QueueRequest)
reorder c v [] mode = gets (get_active_queue v mode)
reorder c v (rid ∷ rids) mode = do
  known ← gets (λ t. all_active v (rid ∷ rids) t.queue_requests)
  raise_if (not known) unknown_ids
  write_positions c (rid ∷ rids)
  commit
  publish (reordered_action v (rid ∷ rids))
  gets (λ t. rows_of (rid ∷ rids) t.queue_requests)

abbrev singer_in : List ℕ → Option ℕ → Bool
singer_in sids k = any_of (λ sid. is_value k sid) sids

-- The groups of the listed singers, in the order of the list.
abbrev listed_groups : List ℕ → List (Option ℕ × List QueueRequest) → List QueueRequest
listed_groups [] gs = []
listed_groups (sid ∷ sids) gs = group_at (some sid) gs ++ listed_groups sids gs

-- `by_singer`, each group by time
pub singer_groups : List QueueRequest → List (Option ℕ × List QueueRequest)
singer_groups items =
    map
      (λ (kg : Option ℕ × List QueueRequest).
        let e : Option ℕ × List QueueRequest = (kg.0, sort (by_key requested) kg.1) in e)
      (group_by (λ (r : QueueRequest). r.singer_id) items)

-- `ordered`: the listed singers, then all others.
pub ordered_by_singer : List ℕ → List QueueRequest → List QueueRequest
unfolding singer_groups
ordered_by_singer sids items =
    let gs = singer_groups items in
    listed_groups sids gs
    ++ concat_groups (select (λ (kg : Option ℕ × List QueueRequest). not (singer_in sids kg.0)) gs)

-- `reorder_by_singer`
pub reorder_by_singer : Clock → ℕ → List ℕ → Mode → Action (List QueueRequest)
reorder_by_singer c v [] mode = gets (get_active_queue v mode)
reorder_by_singer c v (sid ∷ sids) mode = do
  ids ← gets λ t.
      map (λ (r : QueueRequest). r.id)
        (ordered_by_singer (sid ∷ sids) (select (active_at v) t.queue_requests))
  write_positions c ids
  commit
  publish (reordered_by_singer_action v)
  gets (λ t. rows_of ids t.queue_requests)

-- `coalesce(max(rotation_position), 0)` of the selected rows
abbrev pub max_position : List QueueRequest → ℕ
max_position [] = 0
max_position (r ∷ rs) = max (get_or r.rotation_position 0) (max_position rs)

-- `skip_to_end`
pub skip_to_end : Clock → ℕ → ℕ → Action QueueRequest
skip_to_end c v rid = do
  item ← get_item v rid
  raise_if (not (is_skippable item.status)) (bad_status item.status)
  max_pos ← gets (λ t. max_position (select (active_at v) t.queue_requests))
  write_row rid (place_row c.now (max_pos + 1))
  commit
  publish (skipped_to_end_action v rid)
  reload item
