-- ===== src/Merge/Moved.antt =====
-- What the statements of a merge make of the rows (app/services/singer_merge.py).
use scales_infrastructure.Prelude.{
  ℕ, ◌+◌, ◌≡◌, ◌≢◌, refl, Bool, true, false, List, [], ◌∷◌, length, length-update_where, count,
  update_where, arith,
}
use scales_infrastructure.Models.Tables.{
  QueueRequest, CheckInSession, Order, PointsEntry, SingerAchievement, DeviceToken,
  NotificationSetting, Notification, SingerFavorite, SingerFollow, Owned, Tables,
}
use scales_infrastructure.Merge.Rows.{
  request_of, owned_by, check_in_of, order_of, points_of, achievement_of, token_of, setting_of,
  notification_of, to_request, to_owned, to_check_in, to_order, to_points, to_achievement, to_token,
  to_setting, to_notification, achievements_clash, tokens_clash, settings_clash, followers_clash,
  followees_clash, move_first, move_achievements, move_leaderboard, move_tokens, move_settings,
  move_rest, favorite_of, move_favorites, follows_of, followed_by, move_followers, move_followees,
}

-- Rows moved from the one to the other.
pub record IsMoved {A : Type 0} (p q : A → Bool) (before after : List A) : Type 0 where
  pub none_left : count p after ≡ 0
  pub joined : count q after ≡ count q before + count p before
  pub kept : length after ≡ length before

module _ {A : Type 0} (p q : A → Bool) (f : A → A) (leaves : (x : A) → p (f x) ≡ false)
    (arrives : (x : A) → p x ≡ true → q (f x) ≡ true)
    (apart : (x : A) → p x ≡ true → q x ≡ false) where
  update_where-none_left : (rows : List A) → count p (update_where p f rows) ≡ 0
  update_where-none_left [] = refl
  update_where-none_left (x ∷ rows) = ground (arith, leaves x, update_where-none_left rows)

  update_where-joined :
      (rows : List A) → count q (update_where p f rows) ≡ count q rows + count p rows
  update_where-joined [] = refl
  update_where-joined (x ∷ rows) = ground (arith, arrives x, apart x, update_where-joined rows)

  update_where-IsMoved : (rows : List A) → IsMoved p q rows (update_where p f rows)
  update_where-IsMoved rows = record {
    none_left = update_where-none_left rows;
    joined = update_where-joined rows;
    kept = length-update_where p f rows;
  }

-- What merging asks of the rows: no two of them may become alike.
pub record IsClear (v source target : ℕ) (t : Tables) : Type 0 where
  pub achievements : achievements_clash v source target t.singer_achievements ≡ false
  pub tokens : tokens_clash v source target t.device_tokens ≡ false
  pub settings : settings_clash v source target t.notification_settings ≡ false
  pub followers : followers_clash v source target t.singer_follows ≡ false
  pub followees :
      followees_clash v source target (move_followers source target t).singer_follows ≡ false

-- Every row of the source at the venue has become one of the target.
pub record AllMoved (v source target : ℕ) (before after : Tables) : Type 0 where
  pub queue_requests :
      IsMoved (request_of v source) (request_of v target) before.queue_requests after.queue_requests
  pub rotation_entries :
      IsMoved (owned_by v source) (owned_by v target) before.rotation_entries after.rotation_entries
  pub check_in_sessions :
      IsMoved
        (check_in_of v source)
        (check_in_of v target)
        before.check_in_sessions
        after.check_in_sessions
  pub payments : IsMoved (owned_by v source) (owned_by v target) before.payments after.payments
  pub orders : IsMoved (order_of v source) (order_of v target) before.orders after.orders
  pub loyalty_points :
      IsMoved (points_of v source) (points_of v target) before.loyalty_points after.loyalty_points
  pub loyalty_quest_completions :
      IsMoved
        (owned_by v source)
        (owned_by v target)
        before.loyalty_quest_completions
        after.loyalty_quest_completions
  pub points_ledger :
      IsMoved (points_of v source) (points_of v target) before.points_ledger after.points_ledger
  pub singer_achievements :
      IsMoved
        (achievement_of v source)
        (achievement_of v target)
        before.singer_achievements
        after.singer_achievements
  pub leaderboard_entries :
      IsMoved
        (owned_by v source)
        (owned_by v target)
        before.leaderboard_entries
        after.leaderboard_entries
  pub device_tokens :
      IsMoved (token_of v source) (token_of v target) before.device_tokens after.device_tokens
  pub notification_settings :
      IsMoved
        (setting_of v source)
        (setting_of v target)
        before.notification_settings
        after.notification_settings
  pub notifications :
      IsMoved
        (notification_of v source)
        (notification_of v target)
        before.notifications
        after.notifications
  pub share_events :
      IsMoved (owned_by v source) (owned_by v target) before.share_events after.share_events
  pub favorites : count (favorite_of source) after.singer_favorites ≡ 0
  pub follows : count (follows_of source) after.singer_follows ≡ 0
  pub followed : count (followed_by source) after.singer_follows ≡ 0

module _ (v source target now : ℕ) (apart : source ≢ target) where
  requests-IsMoved :
      (rows : List QueueRequest)
      → IsMoved
          (request_of v source)
          (request_of v target)
          rows
          (update_where (request_of v source) (to_request now target) rows)
  requests-IsMoved rows =
      update_where-IsMoved _ _ _ (λ x. ground arith) (λ x. ground arith) (λ x. ground arith) rows

  owned-IsMoved :
      (rows : List Owned)
      → IsMoved
          (owned_by v source)
          (owned_by v target)
          rows
          (update_where (owned_by v source) (to_owned now target) rows)
  owned-IsMoved rows =
      update_where-IsMoved _ _ _ (λ x. ground arith) (λ x. ground arith) (λ x. ground arith) rows

  check_in-IsMoved :
      (rows : List CheckInSession)
      → IsMoved
          (check_in_of v source)
          (check_in_of v target)
          rows
          (update_where (check_in_of v source) (to_check_in now target) rows)
  check_in-IsMoved rows =
      update_where-IsMoved _ _ _ (λ x. ground arith) (λ x. ground arith) (λ x. ground arith) rows

  orders-IsMoved :
      (rows : List Order)
      → IsMoved
          (order_of v source)
          (order_of v target)
          rows
          (update_where (order_of v source) (to_order now target) rows)
  orders-IsMoved rows =
      update_where-IsMoved _ _ _ (λ x. ground arith) (λ x. ground arith) (λ x. ground arith) rows

  points-IsMoved :
      (rows : List PointsEntry)
      → IsMoved
          (points_of v source)
          (points_of v target)
          rows
          (update_where (points_of v source) (to_points now target) rows)
  points-IsMoved rows =
      update_where-IsMoved _ _ _ (λ x. ground arith) (λ x. ground arith) (λ x. ground arith) rows

  achievements-IsMoved :
      (rows : List SingerAchievement)
      → IsMoved
          (achievement_of v source)
          (achievement_of v target)
          rows
          (update_where (achievement_of v source) (to_achievement now target) rows)
  achievements-IsMoved rows =
      update_where-IsMoved _ _ _ (λ x. ground arith) (λ x. ground arith) (λ x. ground arith) rows

  tokens-IsMoved :
      (rows : List DeviceToken)
      → IsMoved
          (token_of v source)
          (token_of v target)
          rows
          (update_where (token_of v source) (to_token now target) rows)
  tokens-IsMoved rows =
      update_where-IsMoved _ _ _ (λ x. ground arith) (λ x. ground arith) (λ x. ground arith) rows

  settings-IsMoved :
      (rows : List NotificationSetting)
      → IsMoved
          (setting_of v source)
          (setting_of v target)
          rows
          (update_where (setting_of v source) (to_setting now target) rows)
  settings-IsMoved rows =
      update_where-IsMoved _ _ _ (λ x. ground arith) (λ x. ground arith) (λ x. ground arith) rows

  notifications-IsMoved :
      (rows : List Notification)
      → IsMoved
          (notification_of v source)
          (notification_of v target)
          rows
          (update_where (notification_of v source) (to_notification now target) rows)
  notifications-IsMoved rows =
      update_where-IsMoved _ _ _ (λ x. ground arith) (λ x. ground arith) (λ x. ground arith) rows

  favorites-none :
      (rows : List SingerFavorite)
      → count (favorite_of source) (move_favorites source target rows) ≡ 0
  favorites-none rows =
      update_where-none_left (favorite_of source) (favorite_of target)
        (λ (r : SingerFavorite). record r { singer_id = target }) (λ x. ground arith)
        (λ x. ground arith) (λ x. ground arith) _

  followers-none :
      (rows : List SingerFollow)
      → count (follows_of source) (
          update_where
            (followed_by source)
            (λ r. record r { followee_id = target })
            (update_where (follows_of source) (λ r. record r { follower_id = target }) rows))
        ≡ 0
  followers-none [] = refl
  followers-none (x ∷ rows) = ground (arith, followers-none rows)

  followees-none :
      (rows : List SingerFollow)
      → count
          (followed_by source)
          (update_where (followed_by source) (λ r. record r { followee_id = target }) rows)
        ≡ 0
  followees-none rows =
      update_where-none_left (followed_by source) (followed_by target)
        (λ (r : SingerFollow). record r { followee_id = target }) (λ x. ground arith)
        (λ x. ground arith) (λ x. ground arith) rows

-- What the statements make of the tables.
unfoldable pub move_all : ℕ → ℕ → ℕ → ℕ → Tables → Tables
unfolding move_first move_achievements move_leaderboard move_tokens move_settings move_rest
    move_followers move_followees
move_all now v source target t = move_followees source target (
    move_followers source target (
      move_rest now v source target (
        move_settings now v source target (
          move_tokens now v source target (
            move_leaderboard now v source target
              (move_achievements now v source target (move_first now v source target t)))))))

pub move_all-AllMoved :
    (now v source target : ℕ)
    → source ≢ target
    → (t : Tables) → AllMoved v source target t (move_all now v source target t)
unfolding move_all
move_all-AllMoved now v source target apart t = record {
  queue_requests = requests-IsMoved v source target now apart t.queue_requests;
  rotation_entries = owned-IsMoved v source target now apart t.rotation_entries;
  check_in_sessions = check_in-IsMoved v source target now apart t.check_in_sessions;
  payments = owned-IsMoved v source target now apart t.payments;
  orders = orders-IsMoved v source target now apart t.orders;
  loyalty_points = points-IsMoved v source target now apart t.loyalty_points;
  loyalty_quest_completions = owned-IsMoved v source target now apart t.loyalty_quest_completions;
  points_ledger = points-IsMoved v source target now apart t.points_ledger;
  singer_achievements = achievements-IsMoved v source target now apart t.singer_achievements;
  leaderboard_entries = owned-IsMoved v source target now apart t.leaderboard_entries;
  device_tokens = tokens-IsMoved v source target now apart t.device_tokens;
  notification_settings = settings-IsMoved v source target now apart t.notification_settings;
  notifications = notifications-IsMoved v source target now apart t.notifications;
  share_events = owned-IsMoved v source target now apart t.share_events;
  favorites = favorites-none v source target now apart t.singer_favorites;
  follows = followers-none v source target now apart t.singer_follows;
  followed = followees-none v source target now apart _;
}
