-- ===== src/Queue/Rotation.antt =====
-- The live rotation that is shown: one row per singer, and the estimated waits
-- (app/core/queue_service.py, `_rotation_view`, and the loop of `broadcast_queue_state`).
pub mod View
pub mod Wait
use scales_infrastructure.Prelude.{
  ℕ, suc, ◌+◌, ◌-◌, ◌*◌, Bool, true, false, not, ◌&&◌, Option, none, some, List, [], ◌∷◌, String,
  ltb, is_none, is_some, get_or, length, select, by_key, lexi, sort, group_by, if◌then◌else◌,
}
use text.Mathlib.Text.{◌==◌ as str_eq}
use scales_infrastructure.Models.Tables.{
  Status, pending, approved, up_next, now_playing, Source, host, QueueRequest, Singer, Song, Tables,
}
use scales_infrastructure.Models.Events.{QueueEntry}
use scales_infrastructure.Queue.Rows.{is_now_playing, singer_of, song_of}

-- `priority.get(status, 99)`
abbrev pub status_priority : Status → ℕ
status_priority now_playing = 0
status_priority up_next = 1
status_priority approved = 2
status_priority pending = 3
status_priority _ = 99

abbrev is_host : Source → Bool
is_host host = true
is_host _ = false

-- Rows that the KJ desktop pushed and placed.
abbrev pub in_rotation : QueueRequest → Bool
in_rotation r = is_some r.rotation_position && is_host r.source

abbrev pub by_priority : QueueRequest → QueueRequest → Bool
by_priority = by_key (λ (r : QueueRequest). status_priority r.status)

-- `group.sort(...)` and `view.append(group[0])` for each group.
pub leaders : List (Option ℕ × List QueueRequest) → List QueueRequest
leaders [] = []
leaders ((k, g) ∷ gs) = elim (sort by_priority g) [ [] ↦ leaders gs | r ∷ _ ↦ r ∷ leaders gs ]

abbrev pub by_place : QueueRequest → QueueRequest → Bool
by_place = lexi (by_key (λ (r : QueueRequest). get_or r.rotation_position 0)) by_priority

-- `_rotation_view`
unfoldable pub rotation_view : List QueueRequest → List QueueRequest
unfolding leaders
rotation_view items =
    sort by_place
      (leaders (group_by (λ (r : QueueRequest). r.singer_id) (select in_rotation items)))

-- `now_playing_idx`, with `none` for -1.
unfoldable pub playing_index : List QueueRequest → Option ℕ
playing_index [] = none
playing_index (r ∷ rs) =
    let later = playing_index rs in
    if is_now_playing r.status then some 0 else elim later [ none ↦ none | some n ↦ some (suc n) ]

-- `AVG_SONG_SECONDS`
abbrev pub avg_song_seconds : ℕ
avg_song_seconds = 280

-- `est_wait` of the row at place `i`, counted from 0; `total` is `len(items)`. Where the source's
-- `positions_after` is not positive it is counted round the end, so `-` never falls below 0.
pub est_wait : ℕ → Option ℕ → Bool → ℕ → ℕ
est_wait total none playing i = 0
est_wait total (some n) true i = 0
est_wait total (some n) false i =
    if ltb n i then (i - n) * avg_song_seconds else (total + i - n) * avg_song_seconds

-- `x or d` for a text: the empty text counts as absent.
abbrev pub text_or : Option String → String → String
text_or none d = d
text_or (some t) d = if str_eq t "" then d else t

-- `str(x) if x else None`
abbrev pub present : Option String → Option String
present none = none
present (some t) = if str_eq t "" then none else some t

-- `getattr(singer, "stage_name", "Unknown") if singer else (item.notes or "Unknown")`
abbrev pub shown_name : Option Singer → Option String → String
shown_name none notes = text_or notes "Unknown"
shown_name (some p) notes = p.stage_name

abbrev pub title_of : Option Song → Option String
title_of none = none
title_of (some p) = some p.title

abbrev pub artist_of : Option Song → Option String
artist_of none = none
artist_of (some p) = some p.artist

pub queue_entry : Tables → ℕ → Option ℕ → ℕ → QueueRequest → QueueEntry
unfolding est_wait
queue_entry t total n i r = record {
  request_id = r.id;
  position = suc i;
  singer_id = r.singer_id;
  singer_name = shown_name (singer_of t.singers r.singer_id) r.notes;
  song_id = r.song_id;
  song_title = title_of (song_of t.songs r.song_id);
  song_artist = artist_of (song_of t.songs r.song_id);
  status = r.status;
  notes = present r.notes;
  requested_at = r.requested_at;
  estimated_wait_seconds = est_wait total n (is_now_playing r.status) i;
}

-- The loop that fills `queue_data`, from place `i` on.
pub entries_from : Tables → ℕ → Option ℕ → ℕ → List QueueRequest → List QueueEntry
entries_from t total n i [] = []
entries_from t total n i (r ∷ rs) = queue_entry t total n i r ∷ entries_from t total n (suc i) rs

-- `queue_data` for the venue's active items.
unfoldable pub queue_data : Tables → List QueueRequest → List QueueEntry
unfolding rotation_view playing_index entries_from queue_entry
queue_data t items =
    let view = rotation_view items in entries_from t (length items) (playing_index view) 0 view
