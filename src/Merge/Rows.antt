-- ===== src/Merge/Rows.antt =====
-- The rows that a merge of two singers moves from the one to the other
-- (app/services/singer_merge.py, from `moved` on). An UPDATE that would break a unique constraint
-- raises, and the transaction is taken back.
use scales_infrastructure.Prelude.{
  ℕ, ◌+◌, Bool, true, false, not, ◌&&◌, some, List, ◌==◌, is_value, any_of, count, select,
  update_where,
}
use scales_infrastructure.Models.Tables.{
  QueueRequest, CheckInSession, Order, PointsEntry, SingerAchievement, DeviceToken,
  NotificationSetting, Notification, SingerFavorite, SingerFollow, Owned, Tables,
}
use scales_infrastructure.Models.Session.{
  duplicate_key, Action, pure, raise, gets, modify, rollback, ◌>>=◌, ◌>>◌,
}
use scales_infrastructure.Points.Achievements.{same_key}

-- `merged_records`: how many rows of each table moved.
pub record Counts : Type 0 where
  pub queue_requests : ℕ
  pub rotation_entries : ℕ
  pub check_in_sessions : ℕ
  pub payments : ℕ
  pub orders : ℕ
  pub loyalty_points : ℕ
  pub loyalty_quest_completions : ℕ
  pub points_ledger : ℕ
  pub singer_achievements : ℕ
  pub leaderboard_entries : ℕ
  pub device_tokens : ℕ
  pub notification_settings : ℕ
  pub notifications : ℕ
  pub share_events : ℕ
  pub favorites : ℕ
  pub follows : ℕ

-- The rows of a singer at a venue, in each table.
module _ (v k : ℕ) where
  abbrev pub request_of : QueueRequest → Bool
  request_of r = is_value r.singer_id k && (r.venue_id == v)

  abbrev pub owned_by : Owned → Bool
  owned_by r = is_value r.singer_id k && (r.venue_id == v)

  abbrev pub check_in_of : CheckInSession → Bool
  check_in_of r = (r.singer_id == k) && (r.venue_id == v)

  abbrev pub order_of : Order → Bool
  order_of r = is_value r.singer_id k && (r.venue_id == v)

  abbrev pub points_of : PointsEntry → Bool
  points_of r = (r.singer_id == k) && (r.venue_id == v)

  abbrev pub achievement_of : SingerAchievement → Bool
  achievement_of r = (r.singer_id == k) && (r.venue_id == v)

  abbrev pub token_of : DeviceToken → Bool
  token_of r = (r.singer_id == k) && (r.venue_id == v)

  abbrev pub setting_of : NotificationSetting → Bool
  setting_of r = (r.singer_id == k) && (r.venue_id == v)

  abbrev pub notification_of : Notification → Bool
  notification_of r = is_value r.singer_id k && (r.venue_id == v)

-- `values(singer_id=target)`; a table with `onupdate` has the time written too.
module _ (now target : ℕ) where
  abbrev pub to_request : QueueRequest → QueueRequest
  to_request r = record r { singer_id = some target; updated_at = some now }

  abbrev pub to_owned : Owned → Owned
  to_owned r = record r { singer_id = some target }

  abbrev pub to_check_in : CheckInSession → CheckInSession
  to_check_in r = record r { singer_id = target }

  abbrev pub to_order : Order → Order
  to_order r = record r { singer_id = some target }

  abbrev pub to_points : PointsEntry → PointsEntry
  to_points r = record r { singer_id = target }

  abbrev pub to_achievement : SingerAchievement → SingerAchievement
  to_achievement r = record r { singer_id = target; updated_at = now }

  abbrev pub to_token : DeviceToken → DeviceToken
  to_token r = record r { singer_id = target }

  abbrev pub to_setting : NotificationSetting → NotificationSetting
  to_setting r = record r { singer_id = target }

  abbrev pub to_notification : Notification → Notification
  to_notification r = record r { singer_id = some target }

-- The unique constraints, as clashes of a row of the source with one of the target.
module _ (v source target : ℕ) where
  unfoldable pub clash {ℓ} : {A : Type ℓ} → (A → Bool) → (A → Bool) → (A → A → Bool) → List A → Bool
  clash p q alike rows = any_of (λ a. p a && any_of (λ b. q b && alike a b) rows) rows

  abbrev pub achievements_clash : List SingerAchievement → Bool
  achievements_clash =
      clash (achievement_of v source) (achievement_of v target)
        (λ a b. same_key a.achievement_key b.achievement_key)

  -- The constraint names no venue.
  abbrev pub tokens_clash : List DeviceToken → Bool
  tokens_clash =
      clash (token_of v source) (λ (r : DeviceToken). r.singer_id == target)
        (λ a b. (a.platform == b.platform) && (a.token == b.token))

  abbrev pub settings_clash : List NotificationSetting → Bool
  settings_clash = clash (setting_of v source) (setting_of v target) (λ a b. true)

  abbrev pub followers_clash : List SingerFollow → Bool
  followers_clash =
      clash (λ (r : SingerFollow). r.follower_id == source) (λ r. r.follower_id == target)
        (λ a b. (a.venue_id == b.venue_id) && (a.followee_id == b.followee_id))

  abbrev pub followees_clash : List SingerFollow → Bool
  followees_clash =
      clash (λ (r : SingerFollow). r.followee_id == source) (λ r. r.followee_id == target)
        (λ a b. (a.venue_id == b.venue_id) && (a.follower_id == b.follower_id))

-- An UPDATE with a unique constraint; the first argument is whether it breaks it.
unfoldable pub update_unless : Bool → (Tables → Tables) → Action (Unit {0})
update_unless true f = rollback >> raise duplicate_key
update_unless false f = modify f

-- The tables whose UPDATE breaks no constraint.
unfoldable pub move_first : ℕ → ℕ → ℕ → ℕ → Tables → Tables
move_first now v source target t = record t {
  queue_requests = update_where (request_of v source) (to_request now target) t.queue_requests;
  rotation_entries = update_where (owned_by v source) (to_owned now target) t.rotation_entries;
  check_in_sessions =
      update_where (check_in_of v source) (to_check_in now target) t.check_in_sessions;
  payments = update_where (owned_by v source) (to_owned now target) t.payments;
  orders = update_where (order_of v source) (to_order now target) t.orders;
  loyalty_points = update_where (points_of v source) (to_points now target) t.loyalty_points;
  loyalty_quest_completions =
      update_where (owned_by v source) (to_owned now target) t.loyalty_quest_completions;
  points_ledger = update_where (points_of v source) (to_points now target) t.points_ledger;
}

unfoldable pub move_achievements : ℕ → ℕ → ℕ → ℕ → Tables → Tables
move_achievements now v source target t = record t {
  singer_achievements =
      update_where (achievement_of v source) (to_achievement now target) t.singer_achievements;
}

unfoldable pub move_leaderboard : ℕ → ℕ → ℕ → ℕ → Tables → Tables
move_leaderboard now v source target t = record t {
  leaderboard_entries =
      update_where (owned_by v source) (to_owned now target) t.leaderboard_entries;
}

unfoldable pub move_tokens : ℕ → ℕ → ℕ → ℕ → Tables → Tables
move_tokens now v source target t = record t {
  device_tokens = update_where (token_of v source) (to_token now target) t.device_tokens;
}

unfoldable pub move_settings : ℕ → ℕ → ℕ → ℕ → Tables → Tables
move_settings now v source target t = record t {
  notification_settings =
      update_where (setting_of v source) (to_setting now target) t.notification_settings;
}

-- The favourites of the target whose song the source has are deleted, and the source's move, at
-- whatever venue they are.
abbrev pub favorite_of : ℕ → SingerFavorite → Bool
favorite_of k r = r.singer_id == k

abbrev pub doubled : ℕ → ℕ → List SingerFavorite → SingerFavorite → Bool
doubled source target rows r =
    favorite_of target r && any_of (λ s. favorite_of source s && (s.song_id == r.song_id)) rows

abbrev pub move_favorites : ℕ → ℕ → List SingerFavorite → List SingerFavorite
move_favorites source target rows =
    update_where (favorite_of source) (λ r. record r { singer_id = target })
      (select (λ r. not (doubled source target rows r)) rows)

unfoldable pub move_rest : ℕ → ℕ → ℕ → ℕ → Tables → Tables
move_rest now v source target t = record t {
  notifications =
      update_where (notification_of v source) (to_notification now target) t.notifications;
  share_events = update_where (owned_by v source) (to_owned now target) t.share_events;
  singer_favorites = move_favorites source target t.singer_favorites;
}

abbrev pub follows_of : ℕ → SingerFollow → Bool
follows_of k r = r.follower_id == k

abbrev pub followed_by : ℕ → SingerFollow → Bool
followed_by k r = r.followee_id == k

unfoldable pub move_followers : ℕ → ℕ → Tables → Tables
move_followers source target t = record t {
  singer_follows =
      update_where (follows_of source) (λ r. record r { follower_id = target }) t.singer_follows;
}

unfoldable pub move_followees : ℕ → ℕ → Tables → Tables
move_followees source target t = record t {
  singer_follows =
      update_where (followed_by source) (λ r. record r { followee_id = target }) t.singer_follows;
}

-- `rowcount` of each statement; those of the source that the statements before do not touch.
abbrev pub counts : ℕ → ℕ → Tables → Counts
counts v k t = record {
  queue_requests = count (request_of v k) t.queue_requests;
  rotation_entries = count (owned_by v k) t.rotation_entries;
  check_in_sessions = count (check_in_of v k) t.check_in_sessions;
  payments = count (owned_by v k) t.payments;
  orders = count (order_of v k) t.orders;
  loyalty_points = count (points_of v k) t.loyalty_points;
  loyalty_quest_completions = count (owned_by v k) t.loyalty_quest_completions;
  points_ledger = count (points_of v k) t.points_ledger;
  singer_achievements = count (achievement_of v k) t.singer_achievements;
  leaderboard_entries = count (owned_by v k) t.leaderboard_entries;
  device_tokens = count (token_of v k) t.device_tokens;
  notification_settings = count (setting_of v k) t.notification_settings;
  notifications = count (notification_of v k) t.notifications;
  share_events = count (owned_by v k) t.share_events;
  favorites = count (favorite_of k) t.singer_favorites;
  follows = count (follows_of k) t.singer_follows + count (followed_by k) t.singer_follows;
}

-- All statements that move rows, in their order.
unfoldable pub reassign : ℕ → ℕ → ℕ → ℕ → Action Counts
unfolding update_unless move_first move_achievements move_leaderboard move_tokens move_settings
    move_rest move_followers move_followees
reassign now v source target = do
  moved ← gets (counts v source)
  modify (move_first now v source target)
  taken ← gets (λ t. achievements_clash v source target t.singer_achievements)
  update_unless taken (move_achievements now v source target)
  modify (move_leaderboard now v source target)
  shared ← gets (λ t. tokens_clash v source target t.device_tokens)
  update_unless shared (move_tokens now v source target)
  both ← gets (λ t. settings_clash v source target t.notification_settings)
  update_unless both (move_settings now v source target)
  modify (move_rest now v source target)
  twice ← gets (λ t. followers_clash v source target t.singer_follows)
  update_unless twice (move_followers source target)
  again ← gets (λ t. followees_clash v source target t.singer_follows)
  update_unless again (move_followees source target)
  pure moved
