-- ===== src/Queue/Broadcast/Durability.antt =====
-- What of a broadcast outlasts the request, and when it fails (app/core/queue_service.py,
-- `broadcast_queue_state`, `_dedupe_now_playing`, `compute_queue_stats`).
use scales_infrastructure.Prelude.{ℕ, ◌<◌, ◌≡◌, refl, ap, ◌∙◌, true, Option, none, some, arith}
use scales_infrastructure.Models.Tables.{up_soon, QueueRequest, Tables}
use scales_infrastructure.Models.Session.{Clock, Session, err, day_out_of_range, ◌>>=◌}
use scales_infrastructure.Models.Session.Uncommitted.{Uncommitted, uncommitted_rules}
use scales_infrastructure.Notify.Delivery.{notify_singer-frame}
use scales_infrastructure.Queue.Order.{round_robin, get_active_queue}
use scales_infrastructure.Queue.Stats.{is_kj_online, compute_queue_stats, eight_am, hour_of, day_of}
use scales_infrastructure.Queue.Broadcast.{
  dedupe_now_playing, broadcast_offline, broadcast_live, broadcast_queue_state, second,
  notify_second, maybe_notify_position_change,
}

live-Uncommitted : (c : Clock) (v : ℕ) → Uncommitted (broadcast_live c v)
unfolding broadcast_live
live-Uncommitted c v = search uncommitted_rules depth 20

offline-Uncommitted : (v : ℕ) → Uncommitted (broadcast_offline v)
unfolding broadcast_offline
offline-Uncommitted v = search uncommitted_rules

-- A broadcast makes nothing durable: the demotion of duplicate playing rows, which it starts
-- with, is not committed.
pub broadcast_queue_state-Uncommitted :
    (c : Clock) (v : ℕ) → Uncommitted (broadcast_queue_state c v)
unfolding broadcast_queue_state
broadcast_queue_state-Uncommitted c v =
    search (uncommitted_rules, live-Uncommitted, offline-Uncommitted)

eight_am-none : (now : ℕ) → day_of now ≡ 1 → hour_of now < 8 → eight_am now ≡ none
unfolding eight_am
eight_am-none now first early = ground arith

-- While the KJ is online, a broadcast before 8 o'clock on the first of a month raises: the
-- statistics ask for day 0.
pub broadcast_first_of_month :
    (c : Clock) (v : ℕ) (s : Session)
    → is_kj_online c v s.db ≡ true
    → day_of c.now ≡ 1
    → hour_of c.now < 8
    → (broadcast_queue_state c v s).0 ≡ err day_out_of_range
unfolding broadcast_queue_state dedupe_now_playing compute_queue_stats ◌>>=◌
broadcast_first_of_month c v s online first early =
    rw online (rw (eight_am-none c.now first early, compute_queue_stats))

-- The notice to the second in line leaves the requests alone, in the session and durably.
pub maybe_notify-rows :
    (c : Clock) (v : ℕ) (s : Session)
    → let s' = (maybe_notify_position_change c v s).1 in
      (s'.db.queue_requests ≡ s.db.queue_requests) × (s'.db.kj_devices ≡ s.db.kj_devices)
unfolding maybe_notify_position_change ◌>>=◌
maybe_notify-rows c v s = go (second (get_active_queue v round_robin s.db))
  where
    go :
        (o : Option QueueRequest)
        → ((notify_second c v o s).1.db.queue_requests ≡ s.db.queue_requests)
          × ((notify_second c v o s).1.db.kj_devices ≡ s.db.kj_devices)
    go none = (refl, refl)
    go (some r) =
        let f =
          notify_singer-frame c r.singer_id v up_soon "You're up soon!"
            "You are 2nd in the queue. Get ready to sing!" r.id s in
        (f.0, f.3)

pub maybe_notify-committed :
    (c : Clock) (v : ℕ) (s : Session)
    → s.committed.queue_requests ≡ s.db.queue_requests
    → (maybe_notify_position_change c v s).1.committed.queue_requests ≡ s.db.queue_requests
unfolding maybe_notify_position_change ◌>>=◌
maybe_notify-committed c v s h = go (second (get_active_queue v round_robin s.db))
  where
    go :
        (o : Option QueueRequest)
        → (notify_second c v o s).1.committed.queue_requests ≡ s.db.queue_requests
    go none = h
    go (some r) =
        let f =
          notify_singer-frame c r.singer_id v up_soon "You're up soon!"
            "You are 2nd in the queue. Get ready to sing!" r.id s in
        ap (λ (t : Tables). t.queue_requests) f.5 ∙ f.0
