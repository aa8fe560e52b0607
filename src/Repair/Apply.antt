-- ===== src/Repair/Apply.antt =====
-- Who plays in a snapshot, and the snapshot as a whole (app/services/repair_sync.py:
-- `_apply_now_playing`, `_apply_snapshot`).
use scales_infrastructure.Prelude.{
  ℕ, Bool, true, false, ◌&&◌, Option, none, some, List, ◌==◌, is_none, is_value, get_or, find,
  length, update_where, if◌then◌else◌,
}
use scales_infrastructure.Models.Tables.{pending, now_playing, QueueRequest}
use scales_infrastructure.Models.Events.{repair_now_playing}
use scales_infrastructure.Models.Session.{
  Clock, Action, pure, gets, modify, commit, publish, best_effort, ◌>>=◌, ◌>>◌,
}
use scales_infrastructure.Models.Session.Flush.{flush}
use scales_infrastructure.Queue.Rotation.{text_or}
use scales_infrastructure.Queue.Rows.{is_now_playing}
use scales_infrastructure.Queue.Broadcast.{broadcast_queue_state}
use scales_infrastructure.Repair.{NowPlayingSnapshot, Snapshot, Conflict}
use scales_infrastructure.Repair.Singers.{
  Texts, with_request, resolve_or_create_song, apply_singers,
}
use scales_infrastructure.Repair.Requests.{write_request, apply_queue, apply_settings}

abbrev pub marked_at : ℕ → QueueRequest → Bool
marked_at v r = (r.venue_id == v) && is_now_playing r.status

abbrev pub back_to_pending : ℕ → QueueRequest → QueueRequest
back_to_pending now r = record r { status = pending; updated_at = some now }

-- The first UPDATE, which a track of the DJ skips.
unfoldable pub demote : Clock → ℕ → NowPlayingSnapshot → Action (Unit {0})
demote c v snap =
    if snap.is_dj_track
    then pure tt
    else modify (λ t. record t {
      queue_requests = update_where (marked_at v) (back_to_pending c.now) t.queue_requests;
    })

abbrev of_singer : ℕ → ℕ → QueueRequest → Bool
of_singer v singer r = is_value r.singer_id singer && (r.venue_id == v) && is_none r.deleted_at

abbrev play_row : ℕ → QueueRequest → QueueRequest
play_row now r = record r { status = now_playing; updated_at = some now }

-- `if resolved: existing.song_id = resolved` and the flush
unfoldable pub set_song : ℕ → Option ℕ → Action (Unit {0})
set_song k none = pure tt
set_song k (some song) = do modify (write_request k (λ r. record r { song_id = song })); flush

unfoldable pub song_of_snapshot : Texts → ℕ → NowPlayingSnapshot → ℕ → Action (Unit {0})
unfolding set_song
song_of_snapshot texts v snap k =
    if is_none snap.song_id
    then pure tt
    else (resolve_or_create_song texts v snap.song_id snap.song_title snap.song_artist
        >>= set_song k)

-- The row that is made for a singer without one has no song_id.
unfoldable pub play_singer :
    Clock → Texts → ℕ → NowPlayingSnapshot → Option QueueRequest → Action (Unit {0})
unfolding song_of_snapshot
play_singer c texts v snap none = with_request none
play_singer c texts v snap (some r) = do
  modify (write_request r.id (play_row c.now))
  song_of_snapshot texts v snap r.id

unfoldable pub play : Clock → Texts → ℕ → NowPlayingSnapshot → Option ℕ → Action (Unit {0})
unfolding play_singer
play c texts v snap none = pure tt
play c texts v snap (some singer) = do
  row ← gets (λ t. find (of_singer v singer) t.queue_requests)
  if snap.is_dj_track then pure tt else play_singer c texts v snap row

unfoldable pub announce : Clock → ℕ → NowPlayingSnapshot → Action (Unit {0})
announce c v snap = do
  publish (
      repair_now_playing v snap.singer_id
        (if snap.is_dj_track then some (text_or snap.singer_name "DJ") else snap.singer_name)
        snap.song_title snap.song_artist (get_or snap.started_at c.now) snap.is_dj_track)
  if snap.is_dj_track then pure tt else broadcast_queue_state c v

-- The rows of `_apply_now_playing`, before its commit.
unfoldable pub place_now_playing : Clock → Texts → ℕ → NowPlayingSnapshot → Action (Unit {0})
unfolding demote play
place_now_playing c texts v snap = do demote c v snap; play c texts v snap snap.singer_id; flush

-- `_apply_now_playing`: a snapshot without it returns before the commit.
unfoldable pub apply_now_playing : Clock → Texts → ℕ → Option NowPlayingSnapshot → Action Bool
unfolding place_now_playing announce
apply_now_playing c texts v none = pure false
apply_now_playing c texts v (some snap) = do
  place_now_playing c texts v snap
  commit
  best_effort (announce c v snap)
  pure true

-- RepairSyncSummary
pub record Summary : Type 0 where
  pub singers_synced : ℕ
  pub queue_synced : ℕ
  pub settings_synced : ℕ
  pub now_playing_synced : Bool
  pub conflicts_resolved : ℕ
  pub server_modified_at : ℕ

-- The counts of the parts before `_apply_now_playing`.
unfoldable pub apply_parts : Clock → Texts → ℕ → Snapshot → List Conflict → Action (ℕ × ℕ × ℕ)
unfolding apply_singers apply_queue apply_settings
apply_parts c texts v snapshot res = do
  singers_synced ← apply_singers c v res snapshot.singers
  flush
  queue_synced ← apply_queue c texts v res snapshot.queue
  flush
  settings_synced ← apply_settings v res snapshot.settings
  flush
  pure (singers_synced, queue_synced, settings_synced)

-- `_apply_snapshot`
unfoldable pub apply_snapshot : Clock → Texts → ℕ → Snapshot → List Conflict → Action Summary
unfolding apply_parts apply_now_playing
apply_snapshot c texts v snapshot res = do
  n ← apply_parts c texts v snapshot res
  played ← apply_now_playing c texts v snapshot.now_playing
  pure (record {
    singers_synced = n.0;
    queue_synced = n.1;
    settings_synced = n.2;
    now_playing_synced = played;
    conflicts_resolved = length res;
    server_modified_at = c.now;
  })
