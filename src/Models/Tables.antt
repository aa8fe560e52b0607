-- ===== src/Models/Tables.antt =====
-- The tables of app/models/__init__.py that the services below read or write, one record for
-- a row. An identifier (a UUID text) is a number, since it is only compared. A timestamp text
-- `YYYY-MM-DDTHH:MM:SSZ` is the number of its fourteen digits, which orders as the text does.
-- A nullable column is an `Option`; an INTEGER 0/1 column is a number.
use scales_infrastructure.Prelude.{ℕ, ℤ, Option, List, String}

-- The check constraint on `status`.
pub data Status : Type 0 where
  pending approved up_next now_playing completed skipped rejected : Status

-- The check constraint on `source`.
pub data Source : Type 0 where
  mobile portal host : Source

-- app/core/permissions.py, `Role`
pub data Role : Type 0 where
  admin kj singer owner account : Role

-- The values of `reference_type` that the services write.
pub data ReferenceType : Type 0 where
  checkin request perform tip queue_request achievement order manual : ReferenceType

pub record QueueRequest : Type 0 where
  pub id : ℕ
  pub venue_id : ℕ
  pub singer_id : Option ℕ
  pub song_id : ℕ
  pub status : Status
  pub notes : Option String
  pub reject_reason : Option String
  pub source : Source
  pub rotation_position : Option ℕ
  pub requested_at : Option ℕ
  pub updated_at : Option ℕ
  pub played_at : Option ℕ
  pub deleted_at : Option ℕ

-- A check constraint keeps `approved` out of its statuses (Host.Snapshot, `is_allowed`).
pub record HostRotation : Type 0 where
  pub id : ℕ
  pub venue_id : ℕ
  pub singer_id : ℕ
  pub song_id : Option ℕ
  pub song_title : Option String
  pub rotation_session_id : Option ℕ
  pub status : Status
  pub sort_order : Option ℕ
  pub rotation_position : Option ℕ
  pub notes : Option String
  pub reject_reason : Option String
  pub tempo : ℤ
  pub pitch : ℤ
  pub source : Source
  pub kj_id : Option String
  pub requested_at : Option ℕ
  pub completed_at : Option ℕ
  pub updated_at : Option ℕ
  pub deleted_at : Option ℕ

pub record Singer : Type 0 where
  pub id : ℕ
  pub account_id : Option ℕ
  pub venue_id : ℕ
  pub stage_name : String
  pub first_name : Option String
  pub last_name : Option String
  pub real_name : Option String
  pub pronouns : Option String
  pub email : Option String
  pub phone : Option String
  pub role : Option Role
  pub loyalty_tier_id : Option ℕ
  pub total_points : Option ℤ
  pub last_seen : Option ℕ
  pub deactivated_at : Option ℕ
  pub linked_singer_id : Option ℕ
  pub created_at : Option ℕ
  pub updated_at : Option ℕ
  pub deleted_at : Option ℕ

pub record Song : Type 0 where
  pub id : ℕ
  pub venue_id : ℕ
  pub catalog_id : Option ℕ
  pub title : String
  pub artist : String
  pub deleted_at : Option ℕ

pub record SingerRemoval : Type 0 where
  pub venue_id : ℕ
  pub singer_id : ℕ
  pub removed_by_device_id : Option ℕ
  pub removed_by_account_id : Option ℕ
  pub removed_at : Option ℕ
  pub acknowledged_at : Option ℕ

pub record KjDevice : Type 0 where
  pub id : ℕ
  pub venue_id : ℕ
  pub last_seen : Option ℕ
  pub revoked_at : Option ℕ

-- A row of `points_ledger`, and of `loyalty_points`, which has the same columns.
pub record PointsEntry : Type 0 where
  pub venue_id : ℕ
  pub singer_id : ℕ
  pub amount : ℤ
  pub reason : String
  pub reference_type : Option ReferenceType
  pub reference_id : Option ℕ
  pub created_at : ℕ

pub record LoyaltyTier : Type 0 where
  pub id : ℕ
  pub venue_id : ℕ
  pub min_points : ℤ
  pub is_active : ℕ
  pub deleted_at : Option ℕ

pub record Order : Type 0 where
  pub venue_id : ℕ
  pub singer_id : Option ℕ
  pub total_cents : ℕ
  pub deleted_at : Option ℕ

pub record CheckInSession : Type 0 where
  pub venue_id : ℕ
  pub singer_id : ℕ

pub data AchievementKey : Type 0 where
  first_song iron_lungs regular big_spender : AchievementKey

pub record SingerAchievement : Type 0 where
  pub venue_id : ℕ
  pub singer_id : ℕ
  pub achievement_key : AchievementKey
  pub progress : ℤ
  pub unlocked_at : Option ℕ
  pub created_at : ℕ
  pub updated_at : ℕ

-- The values of `notification_type`; `general` is one without a preference column.
pub data NotificationType : Type 0 where
  up_soon on_stage bumped queue_update announcement social payment general : NotificationType

pub record Notification : Type 0 where
  pub singer_id : Option ℕ
  pub venue_id : ℕ
  pub notification_type : NotificationType
  pub title : String
  pub body : String
  pub request_id : ℕ
  pub is_read : ℕ
  pub sent_at : ℕ

pub record NotificationSetting : Type 0 where
  pub singer_id : ℕ
  pub venue_id : ℕ
  pub up_soon : ℕ
  pub on_stage : ℕ
  pub bumped : ℕ
  pub queue_update : ℕ
  pub announcement : ℕ
  pub social : ℕ
  pub payment : ℕ

pub record DeviceToken : Type 0 where
  pub singer_id : ℕ
  pub venue_id : ℕ
  pub platform : ℕ
  pub token : ℕ
  pub is_active : ℕ

-- `config_key` is a text.
pub record VenueConfig : Type 0 where
  pub venue_id : ℕ
  pub config_key : ℕ
  pub config_value : Option String
  pub updated_at : Option ℕ

pub record SingerFavorite : Type 0 where
  pub id : ℕ
  pub singer_id : ℕ
  pub song_id : ℕ

pub record SingerFollow : Type 0 where
  pub venue_id : ℕ
  pub follower_id : ℕ
  pub followee_id : ℕ

pub record SingerLinkMergeLog : Type 0 where
  pub venue_id : ℕ
  pub source_singer_id : ℕ
  pub target_singer_id : ℕ
  pub merged_by_account_id : Option ℕ
  pub merged_by_kj_device_id : Option ℕ
  pub queue_requests_moved : ℕ
  pub payments_moved : ℕ
  pub favorites_moved : ℕ
  pub achievements_moved : ℕ

pub record Account : Type 0 where
  pub id : ℕ
  pub email : String

-- A row of `rotation_entries`, `payments`, `loyalty_quest_completions`, `leaderboard_entries` or
-- `share_events`: whose it is.
pub record Owned : Type 0 where
  pub venue_id : ℕ
  pub singer_id : Option ℕ

pub record Tables : Type 0 where
  pub queue_requests : List QueueRequest
  pub host_rotation : List HostRotation
  pub singers : List Singer
  pub songs : List Song
  pub singer_removals : List SingerRemoval
  pub kj_devices : List KjDevice
  pub points_ledger : List PointsEntry
  pub loyalty_points : List PointsEntry
  pub loyalty_tiers : List LoyaltyTier
  pub orders : List Order
  pub check_in_sessions : List CheckInSession
  pub singer_achievements : List SingerAchievement
  pub notifications : List Notification
  pub notification_settings : List NotificationSetting
  pub device_tokens : List DeviceToken
  pub venue_configs : List VenueConfig
  pub singer_favorites : List SingerFavorite
  pub singer_follows : List SingerFollow
  pub singer_link_merge_logs : List SingerLinkMergeLog
  pub accounts : List Account
  pub rotation_entries : List Owned
  pub payments : List Owned
  pub loyalty_quest_completions : List Owned
  pub leaderboard_entries : List Owned
  pub share_events : List Owned
