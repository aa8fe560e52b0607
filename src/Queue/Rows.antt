-- ===== src/Queue/Rows.antt =====
-- The conditions by which QueueService selects rows of `queue_requests`, and the writes it makes
-- (app/core/queue_service.py).
use scales_infrastructure.Prelude.{
  ℕ, Bool, true, false, ◌&&◌, Option, some, List, ◌==◌, is_none, is_value, get_or, find, select,
  any_of, update_where, by_column, by_column_desc, lexi, sort, first, drop, map,
}
use scales_infrastructure.Models.Tables.{
  Status, pending, approved, up_next, now_playing, completed, skipped, rejected, QueueRequest,
  Singer, Song,
}
use scales_infrastructure.Models.Session.{Action, item_not_found, gets, or_raise, modify, ◌>>=◌}

-- `ACTIVE_STATUSES`
abbrev pub is_active : Status → Bool
is_active pending = true
is_active approved = true
is_active up_next = true
is_active now_playing = true
is_active _ = false

-- `TERMINAL_STATUSES`
abbrev pub is_terminal : Status → Bool
is_terminal completed = true
is_terminal skipped = true
is_terminal rejected = true
is_terminal _ = false

abbrev pub is_now_playing : Status → Bool
is_now_playing now_playing = true
is_now_playing _ = false

-- `status in {"pending", "approved"}`
abbrev pub is_waiting : Status → Bool
is_waiting pending = true
is_waiting approved = true
is_waiting _ = false

-- `status in {"approved", "now_playing"}`
abbrev pub is_completable : Status → Bool
is_completable approved = true
is_completable now_playing = true
is_completable _ = false

-- `status in {"approved", "now_playing", "pending"}`
abbrev pub is_skippable : Status → Bool
is_skippable approved = true
is_skippable now_playing = true
is_skippable pending = true
is_skippable _ = false

abbrev pub live_at : ℕ → QueueRequest → Bool
live_at v r = (r.venue_id == v) && is_none r.deleted_at

abbrev pub active_at : ℕ → QueueRequest → Bool
active_at v r = live_at v r && is_active r.status

abbrev pub playing_at : ℕ → QueueRequest → Bool
playing_at v r = live_at v r && is_now_playing r.status

abbrev pub waiting_at : ℕ → QueueRequest → Bool
waiting_at v r = live_at v r && is_waiting r.status

abbrev pub has_id : ℕ → QueueRequest → Bool
has_id rid r = r.id == rid

abbrev pub item_at : ℕ → ℕ → QueueRequest → Bool
item_at v rid r = has_id rid r && live_at v r

-- `requested_at or ""`; the empty text is below every timestamp.
abbrev pub requested : QueueRequest → ℕ
requested r = get_or r.requested_at 0

-- `_get_item`
unfoldable pub get_item : ℕ → ℕ → Action QueueRequest
get_item v rid = do or_raise (← gets (λ t. find (item_at v rid) t.queue_requests)) item_not_found

-- Writes the fields of the row with this primary key.
unfoldable pub write_row : ℕ → (QueueRequest → QueueRequest) → Action (Unit {0})
write_row rid f =
    modify (λ t. record t { queue_requests = update_where (has_id rid) f t.queue_requests })

-- The row as the session now sees it.
unfoldable pub reload : QueueRequest → Action QueueRequest
reload r = gets (λ t. get_or (find (has_id r.id) t.queue_requests) r)

-- ORDER BY updated_at DESC, requested_at DESC
abbrev pub latest_first : QueueRequest → QueueRequest → Bool
latest_first =
    lexi (by_column_desc (λ (r : QueueRequest). r.updated_at))
      (by_column_desc (λ (r : QueueRequest). r.requested_at))

-- ORDER BY rotation_position ASC, requested_at ASC
abbrev pub next_first : QueueRequest → QueueRequest → Bool
next_first =
    lexi (by_column (λ (r : QueueRequest). r.rotation_position))
      (by_column (λ (r : QueueRequest). r.requested_at))

-- The query of `_get_now_playing`.
unfoldable pub now_playing_row : ℕ → List QueueRequest → Option QueueRequest
now_playing_row v rows = first (sort latest_first (select (playing_at v) rows))

-- The query of `_auto_advance` and `get_next_up_item`.
unfoldable pub next_up_row : ℕ → List QueueRequest → Option QueueRequest
next_up_row v rows = first (sort next_first (select (waiting_at v) rows))

-- The rows that `_dedupe_now_playing` demotes: all but the first.
unfoldable pub stale_ids : ℕ → List QueueRequest → List ℕ
stale_ids v rows =
    map (λ (r : QueueRequest). r.id) (drop 1 (sort latest_first (select (playing_at v) rows)))

abbrev pub id_in : List ℕ → QueueRequest → Bool
id_in ids r = any_of (λ k. r.id == k) ids

-- What the statement of `_dedupe_now_playing` makes of the rows.
unfoldable pub dedupe_rows : ℕ → ℕ → List QueueRequest → List QueueRequest
unfolding stale_ids
dedupe_rows now v rows =
    update_where (id_in (stale_ids v rows))
      (λ r. record r { status = pending; updated_at = some now }) rows

-- `item.singer` and `item.song`
abbrev pub singer_of : List Singer → Option ℕ → Option Singer
singer_of singers k = find (λ (p : Singer). is_value k p.id) singers

abbrev pub song_of : List Song → ℕ → Option Song
song_of songs k = find (λ (p : Song). p.id == k) songs
