-- ===== src/Models/Events.antt =====
-- What leaves the process: the events of QueueEventPublisher.publish with their payloads
-- (app/core/queue_service.py, app/core/host_rotation_service.py), and push messages.
use scales_infrastructure.Prelude.{ℕ, Bool, Option, List, String}
use scales_infrastructure.Models.Tables.{Status, NotificationType}

-- An element of `queue_data` in QueueService.broadcast_queue_state.
pub record QueueEntry : Type 0 where
  pub request_id : ℕ
  pub position : ℕ
  pub singer_id : Option ℕ
  pub singer_name : String
  pub song_id : ℕ
  pub song_title : Option String
  pub song_artist : Option String
  pub status : Status
  pub notes : Option String
  pub requested_at : Option ℕ
  pub estimated_wait_seconds : ℕ

-- `now_playing_out` of QueueService.compute_queue_stats.
pub record NowPlaying : Type 0 where
  pub request_id : ℕ
  pub singer_name : String
  pub song_title : Option String
  pub song_artist : Option String
  pub started_at : ℕ

pub record QueueStats : Type 0 where
  pub total_pending : ℕ
  pub avg_wait_seconds : ℕ
  pub songs_completed_tonight : ℕ
  pub now_playing : Option NowPlaying
  pub total_singers : ℕ

-- `_host_rotation_out`
pub record HostEntry : Type 0 where
  pub request_id : ℕ
  pub singer_id : ℕ
  pub song_id : Option ℕ
  pub position : Option ℕ
  pub status : Status
  pub notes : Option String
  pub requested_at : Option ℕ
  pub updated_at : Option ℕ
  pub played_at : Option ℕ
  pub estimated_wait_seconds : ℕ

pub data Event : Type 0 where
  -- venue, request
  request_approved : ℕ → ℕ → Event
  -- venue, request, singer, song, song title, reason, rejected by, rejected at
  request_rejected :
      ℕ → ℕ → Option ℕ → ℕ → Option String → Option String → Option String → Option ℕ → Event
  -- venue, singer
  singer_removed : ℕ → ℕ → Event
  -- venue, request
  singer_completed : ℕ → ℕ → Event
  -- venue, request, started by an auto-advance
  request_started : ℕ → ℕ → Bool → Event
  request_skipped : ℕ → ℕ → Event
  -- `queue_updated` with its `action`
  cancelled_action : ℕ → ℕ → Event
  edited_action : ℕ → ℕ → Event
  reordered_action : ℕ → List ℕ → Event
  reordered_by_singer_action : ℕ → Event
  skipped_to_end_action : ℕ → ℕ → Event
  -- the broadcasts of the whole state; `stats_offline` has `kj_online` false
  queue_state : ℕ → List QueueEntry → ℕ → Event
  stats : ℕ → QueueStats → Event
  stats_offline : ℕ → Event
  now_playing_state : ℕ → Option NowPlaying → Event
  host_queue_state : ℕ → List HostEntry → Bool → Event
  host_now_playing : ℕ → HostEntry → ℕ → Event
  -- venue, singer, singer's name, song title, song artist, started at, a track of the DJ
  repair_now_playing :
      ℕ → Option ℕ → Option String → Option String → Option String → ℕ → Bool → Event
  host_stats : ℕ → ℕ → ℕ → Option (HostEntry × ℕ) → ℕ → Event

-- One call of enqueue_push_notification (app/core/notification_service.py).
pub record Push : Type 0 where
  pub device_tokens : List ℕ
  pub title : String
  pub body : String
  pub notification_type : NotificationType
