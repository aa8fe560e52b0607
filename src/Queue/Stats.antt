-- ===== src/Queue/Stats.antt =====
-- The statistics that are broadcast (app/core/queue_service.py, `compute_queue_stats`,
-- `get_now_playing_item`, `get_next_up_item`, `is_kj_online`).
use scales_infrastructure.Prelude.{
  ℕ, ◌+◌, ◌-◌, ◌*◌, ◌/◌, ◌%◌, Bool, true, false, ◌&&◌, ◌||◌, Option, none, some, List, [], ◌∷◌,
  ◌==◌, ltb, leb, is_none, get_or, any_of, same, select, count, if◌then◌else◌,
}
use mathlib.Core.Option
use scales_infrastructure.Models.Tables.{Status, completed, QueueRequest, KjDevice, Tables}
use scales_infrastructure.Models.Events.{NowPlaying, QueueStats}
use scales_infrastructure.Models.Session.{Clock}
use scales_infrastructure.Queue.Rows.{active_at, live_at, now_playing_row, singer_of, song_of}
use scales_infrastructure.Queue.Rotation.{shown_name, title_of, artist_of}

-- `column >= cutoff`, which NULL does not meet.
abbrev pub not_before : ℕ → Option ℕ → Bool
not_before cutoff none = false
not_before cutoff (some x) = leb cutoff x

abbrev pub online_at : ℕ → ℕ → KjDevice → Bool
online_at v cutoff d = (d.venue_id == v) && not_before cutoff d.last_seen && is_none d.revoked_at

-- `is_kj_online` with the session's database and the default threshold of 3600 seconds.
unfoldable pub is_kj_online : Clock → ℕ → Tables → Bool
is_kj_online c v t = ltb 0 (count (online_at v (c.ago 3600)) t.kj_devices)

-- The parts of a timestamp's digits.
abbrev pub date_of : ℕ → ℕ
date_of stamp = stamp / 1000000

abbrev pub hour_of : ℕ → ℕ
hour_of stamp = stamp / 10000 % 100

abbrev pub day_of : ℕ → ℕ
day_of stamp = stamp / 1000000 % 100

-- 08:00 today, or before 8 o'clock 08:00 on `day - 1`; `datetime.replace` raises on day 0.
unfoldable pub eight_am : ℕ → Option ℕ
eight_am now =
    if ltb (hour_of now) 8
    then (if day_of now == 1 then none else some ((date_of now - 1) * 1000000 + 80000))
    else some (date_of now * 1000000 + 80000)

abbrev is_completed : Status → Bool
is_completed completed = true
is_completed _ = false

abbrev pub completed_since : ℕ → ℕ → QueueRequest → Bool
completed_since v cutoff r = live_at v r && is_completed r.status && not_before cutoff r.played_at

-- `func.count(func.distinct(singer_id))`: NULL is not counted.
pub distinct_singers : List QueueRequest → ℕ
distinct_singers [] = 0
distinct_singers (r ∷ rs) =
    (if is_none r.singer_id || any_of (λ (q : QueueRequest). same q.singer_id r.singer_id) rs
      then 0
      else 1)
    + distinct_singers rs

-- `now_playing_out`
pub now_playing_out : Clock → Tables → QueueRequest → NowPlaying
now_playing_out c t r = record {
  request_id = r.id;
  singer_name = shown_name (singer_of t.singers r.singer_id) r.notes;
  song_title = title_of (song_of t.songs r.song_id);
  song_artist = artist_of (song_of t.songs r.song_id);
  started_at = get_or r.requested_at c.now;
}

abbrev stats_at : Clock → ℕ → Tables → ℕ → QueueStats
stats_at c v t cutoff = record {
  total_pending = count (active_at v) t.queue_requests;
  avg_wait_seconds = 280;
  songs_completed_tonight = count (completed_since v cutoff) t.queue_requests;
  now_playing = Option.map (now_playing_out c t) (now_playing_row v t.queue_requests);
  total_singers = distinct_singers (select (active_at v) t.queue_requests);
}

-- `compute_queue_stats`
unfoldable pub compute_queue_stats : Clock → ℕ → Tables → Option QueueStats
compute_queue_stats c v t = Option.map (stats_at c v t) (eight_am c.now)
