-- ===== src/Host/Rows.antt =====
-- The conditions by which HostRotationService selects rows of `host_rotation`, and the writes it
-- makes (app/core/host_rotation_service.py).
use scales_infrastructure.Prelude.{
  ℕ, Bool, true, false, not, ◌&&◌, Option, List, ◌==◌, is_none, get_or, find, select, update_where,
  by_column, by_column_desc, lexi, sort, first,
}
use scales_infrastructure.Models.Tables.{Status, pending, up_next, now_playing, HostRotation}
use scales_infrastructure.Models.Session.{
  Action, rotation_item_not_found, gets, or_raise, modify, ◌>>=◌,
}
use scales_infrastructure.Queue.Rows.{is_terminal, is_now_playing}

-- `status in {"up_next", "now_playing"}`
abbrev pub is_completable : Status → Bool
is_completable up_next = true
is_completable now_playing = true
is_completable _ = false

-- `status in {"up_next", "now_playing", "pending"}`
abbrev pub is_skippable : Status → Bool
is_skippable pending = true
is_skippable up_next = true
is_skippable now_playing = true
is_skippable _ = false

-- `status in ["pending", "up_next"]`
abbrev pub is_next : Status → Bool
is_next pending = true
is_next up_next = true
is_next _ = false

abbrev pub at_venue : ℕ → HostRotation → Bool
at_venue v r = r.venue_id == v

abbrev pub live_at : ℕ → HostRotation → Bool
live_at v r = at_venue v r && is_none r.deleted_at

abbrev pub active_at : ℕ → HostRotation → Bool
active_at v r = live_at v r && not (is_terminal r.status)

abbrev pub placed_at : ℕ → HostRotation → Bool
placed_at v r = live_at v r && is_skippable r.status

-- Deleted rows too: what the demotion updates.
abbrev pub marked_at : ℕ → HostRotation → Bool
marked_at v r = at_venue v r && is_now_playing r.status

abbrev pub playing_at : ℕ → HostRotation → Bool
playing_at v r = live_at v r && is_now_playing r.status

abbrev pub waiting_at : ℕ → HostRotation → Bool
waiting_at v r = live_at v r && is_next r.status

abbrev pub has_id : ℕ → HostRotation → Bool
has_id rid r = r.id == rid

abbrev pub item_at : ℕ → ℕ → HostRotation → Bool
item_at v rid r = has_id rid r && live_at v r

-- ORDER BY sort_order, requested_at
abbrev pub by_sort_order : HostRotation → HostRotation → Bool
by_sort_order =
    lexi (by_column (λ (r : HostRotation). r.sort_order))
      (by_column (λ (r : HostRotation). r.requested_at))

-- `get_active_items`
unfoldable pub get_active_items : ℕ → List HostRotation → List HostRotation
get_active_items v rows = sort by_sort_order (select (active_at v) rows)

-- `get_all_items`
unfoldable pub get_all_items : ℕ → List HostRotation → List HostRotation
get_all_items v rows = sort by_sort_order (select (live_at v) rows)

-- `_get_item`
unfoldable pub get_item : ℕ → ℕ → Action HostRotation
get_item v rid = do
  or_raise (← gets (λ t. find (item_at v rid) t.host_rotation)) rotation_item_not_found

-- Writes the fields of the selected rows.
unfoldable pub write_rows :
    (HostRotation → Bool) → (HostRotation → HostRotation) → Action (Unit {0})
write_rows p f = modify (λ t. record t { host_rotation = update_where p f t.host_rotation })

-- The row as the session now sees it.
unfoldable pub reload : HostRotation → Action HostRotation
reload r = gets (λ t. get_or (find (has_id r.id) t.host_rotation) r)

-- ORDER BY updated_at DESC, requested_at DESC
abbrev pub latest_first : HostRotation → HostRotation → Bool
latest_first =
    lexi (by_column_desc (λ (r : HostRotation). r.updated_at))
      (by_column_desc (λ (r : HostRotation). r.requested_at))

-- ORDER BY rotation_position ASC, requested_at ASC
abbrev pub next_first : HostRotation → HostRotation → Bool
next_first =
    lexi (by_column (λ (r : HostRotation). r.rotation_position))
      (by_column (λ (r : HostRotation). r.requested_at))

-- The query of `_get_now_playing`.
unfoldable pub now_playing_row : ℕ → List HostRotation → Option HostRotation
now_playing_row v rows = first (sort latest_first (select (playing_at v) rows))

-- The query of `_auto_advance`.
unfoldable pub next_row : ℕ → List HostRotation → Option HostRotation
next_row v rows = first (sort next_first (select (waiting_at v) rows))
