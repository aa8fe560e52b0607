-- ===== src/Notify/Delivery.antt =====
-- When a notification is stored and when a push goes out (app/core/notification_service.py).
use scales_infrastructure.Prelude.{ℕ, ◌≡◌, Option, String, inl, inr, Bool-cases, arith}
use scales_infrastructure.Models.Tables.{NotificationType}
use scales_infrastructure.Models.Session.{Clock, Session, ◌>>=◌}
use scales_infrastructure.Notify.{notify_singer, push_enabled}

module _ (c : Clock) (singer : Option ℕ) (v : ℕ) (kind : NotificationType) (title body : String)
    (rid : ℕ) (s : Session) where
  -- Whatever happens to the push, the notification is stored and nothing else of the queue moves.
  pub notify_singer-frame :
      let s' = (notify_singer c singer v kind title body rid s).1 in
      (s'.db.queue_requests ≡ s.db.queue_requests)
      × (s'.db.host_rotation ≡ s.db.host_rotation)
      × (s'.db.singer_removals ≡ s.db.singer_removals)
      × (s'.db.kj_devices ≡ s.db.kj_devices)
      × (s'.events ≡ s.events)
      × (s'.committed ≡ s'.db)
  unfolding notify_singer ◌>>=◌
  notify_singer-frame = elim (Bool-cases (push_enabled kind singer v s.db)) [
    | inl e ↦ ground arith
    | inr e ↦ ground arith
  ]
