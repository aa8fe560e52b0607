-- ===== src/Notify.antt =====
-- app/core/notification_service.py: an in-app notification is stored, and a push is enqueued for
-- the singer's devices unless the singer has switched that type off. Firebase and Celery stand
-- behind `enqueue_push_notification` and are seen only as the list of its calls.
pub mod Delivery
use scales_infrastructure.Prelude.{
  ℕ, Bool, true, false, not, ◌&&◌, Option, none, some, List, [], ◌∷◌, ◌++◌, map, String, ◌==◌,
  is_value, select, find, if◌then◌else◌,
}
use scales_infrastructure.Models.Tables.{
  NotificationType, up_soon, on_stage, bumped, queue_update, announcement, social, payment, general,
  Notification, NotificationSetting, DeviceToken, Tables,
}
use scales_infrastructure.Models.Events.{Push}
use scales_infrastructure.Models.Session.{
  Clock, Action, pure, gets, modify, commit, push, ◌>>=◌, ◌>>◌,
}

-- `bool(getattr(setting_row, column_name, 1))`, with `_TYPE_TO_COLUMN` for the column.
pub setting_enabled : NotificationType → NotificationSetting → Bool
setting_enabled up_soon s = not (s.up_soon == 0)
setting_enabled on_stage s = not (s.on_stage == 0)
setting_enabled bumped s = not (s.bumped == 0)
setting_enabled queue_update s = not (s.queue_update == 0)
setting_enabled announcement s = not (s.announcement == 0)
setting_enabled social s = not (s.social == 0)
setting_enabled payment s = not (s.payment == 0)
setting_enabled general s = true

-- No row means that the push is enabled.
pub push_enabled : NotificationType → Option ℕ → ℕ → Tables → Bool
unfolding setting_enabled
push_enabled kind singer v t =
    elim (find (λ (r : NotificationSetting). is_value singer r.singer_id && (r.venue_id == v))
      t.notification_settings) [ none ↦ true | some row ↦ setting_enabled kind row ]

-- The tokens of the singer's active devices at the venue.
pub active_tokens : Option ℕ → ℕ → Tables → List ℕ
active_tokens singer v t =
    map (λ (d : DeviceToken). d.token)
      (select
        (λ (d : DeviceToken).
          is_value singer d.singer_id && (d.venue_id == v) && (d.is_active == 1))
        t.device_tokens)

abbrev push_tokens : Bool → List ℕ → String → String → NotificationType → Action (Unit {0})
push_tokens true (k ∷ ks) title body kind =
    push (record { device_tokens = k ∷ ks; title = title; body = body; notification_type = kind })
push_tokens true [] title body kind = pure tt
push_tokens false tokens title body kind = pure tt

-- `notify_singer`; the payload is always the request's id.
pub notify_singer :
    Clock → Option ℕ → ℕ → NotificationType → String → String → ℕ → Action (Unit {0})
notify_singer c singer v kind title body rid = do
  modify λ t. record t {
    notifications =
        t.notifications
        ++ record {
          singer_id = singer;
          venue_id = v;
          notification_type = kind;
          title = title;
          body = body;
          request_id = rid;
          is_read = 0;
          sent_at = c.now;
        }
          ∷ [];
  }
  enabled ← gets (push_enabled kind singer v)
  tokens ← gets (active_tokens singer v)
  push_tokens enabled tokens title body kind
  commit
