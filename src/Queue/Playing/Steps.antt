-- ===== src/Queue/Playing/Steps.antt =====
-- The steps that the operations of app/core/queue_service.py are made of keep the invariant:
-- unique keys, and at most one request of the venue that plays.
use scales_infrastructure.Prelude.{
  ℕ, ℤ, ◌≡◌, refl, true, Option, none, some, String, count, count-update_where_same,
  count-update_where_le, arith,
}
use scales_infrastructure.Models.Tables.{NotificationType, ReferenceType, QueueRequest, Tables}
use scales_infrastructure.Models.Session.{Clock, Session, ◌>>=◌}
use scales_infrastructure.Models.Session.Preserves.{Preserves, preserves_rules, Preserves-pure}
use scales_infrastructure.Notify.{notify_singer}
use scales_infrastructure.Notify.Delivery.{notify_singer-frame}
use scales_infrastructure.Points.{add_points}
use scales_infrastructure.Points.Frame.{add_points-frame}
use scales_infrastructure.Queue.Rows.{
  has_id, playing_at, get_item, write_row, reload, now_playing_row, next_up_row,
}
use scales_infrastructure.Queue.Broadcast.{
  dedupe_now_playing, broadcast_offline, broadcast_live, broadcast_queue_state,
  maybe_notify_position_change, notify_second, start_row, auto_advance, advance, start_next,
}
use scales_infrastructure.Queue.Playing.{
  IsSound, now_playing_row-none, dedupe_rows-single, dedupe_rows-ids, start_row-single,
}

module _ (v : ℕ) where
  -- The invariant reads the requests alone.
  pub IsSound-same :
      (t t' : Tables) → t'.queue_requests ≡ t.queue_requests → IsSound v t → IsSound v t'
  IsSound-same t t' e h = record { ids = λ k. rw e (h.ids k); single = rw e h.single }

  pub get_item-IsSound : (w rid : ℕ) → Preserves (IsSound v) (get_item w rid)
  unfolding get_item
  get_item-IsSound w rid = search preserves_rules

  pub reload-IsSound : (r : QueueRequest) → Preserves (IsSound v) (reload r)
  unfolding reload
  reload-IsSound r = search preserves_rules

  -- A write that keeps the key and starts nothing.
  pub write_row-IsSound :
      (rid : ℕ) (f : QueueRequest → QueueRequest)
      → ((r : QueueRequest) → (f r).id ≡ r.id)
      → ((r : QueueRequest) → playing_at v (f r) ≡ true → playing_at v r ≡ true)
      → Preserves (IsSound v) (write_row rid f)
  unfolding write_row ◌>>=◌
  write_row-IsSound rid f same_id quiet = record {
    run = λ s h. record {
      ids = λ k.
          rw
            (count-update_where_same (has_id k) (has_id rid) f (λ r. rw (same_id r))
              s.db.queue_requests)
            (h.ids k);
      single = omega (
        arith,
        count-update_where_le (playing_at v) (has_id rid) f quiet s.db.queue_requests,
        h.single,
      );
    };
  }

  pub notify_singer-IsSound :
      (c : Clock) (singer : Option ℕ) (w : ℕ) (kind : NotificationType) (title body : String)
      (rid : ℕ)
      → Preserves (IsSound v) (notify_singer c singer w kind title body rid)
  notify_singer-IsSound c singer w kind title body rid = record {
    run = λ s h. IsSound-same s.db _ (notify_singer-frame c singer w kind title body rid s).0 h;
  }

  pub add_points-IsSound :
      (c : Clock) (w singer : ℕ) (amount : ℤ) (reason : String) (kind : Option ReferenceType)
      (ref : Option ℕ)
      → Preserves (IsSound v) (add_points c w singer amount reason kind ref)
  add_points-IsSound c w singer amount reason kind ref = record {
    run = λ s h. IsSound-same s.db _ (add_points-frame c w singer amount reason kind ref s).0 h;
  }

  dedupe_now_playing-IsSound : (c : Clock) → Preserves (IsSound v) (dedupe_now_playing c v)
  unfolding dedupe_now_playing ◌>>=◌
  dedupe_now_playing-IsSound c = record {
    run = λ s h. record {
      ids = λ k. rw (dedupe_rows-ids c.now v k s.db.queue_requests) (h.ids k);
      single = dedupe_rows-single c.now v s.db.queue_requests;
    };
  }

  broadcast_offline-IsSound : Preserves (IsSound v) (broadcast_offline v)
  unfolding broadcast_offline
  broadcast_offline-IsSound = search preserves_rules

  broadcast_live-IsSound : (c : Clock) → Preserves (IsSound v) (broadcast_live c v)
  unfolding broadcast_live
  broadcast_live-IsSound c = search (preserves_rules, dedupe_now_playing-IsSound) depth 20

  pub broadcast_queue_state-IsSound :
      (c : Clock) → Preserves (IsSound v) (broadcast_queue_state c v)
  unfolding broadcast_queue_state
  broadcast_queue_state-IsSound c =
      search (preserves_rules, broadcast_live-IsSound, broadcast_offline-IsSound)

  notify_second-IsSound :
      (c : Clock) (o : Option QueueRequest) → Preserves (IsSound v) (notify_second c v o)
  notify_second-IsSound c none = Preserves-pure tt
  notify_second-IsSound c (some r) = search notify_singer-IsSound

  pub maybe_notify_position_change-IsSound :
      (c : Clock) → Preserves (IsSound v) (maybe_notify_position_change c v)
  unfolding maybe_notify_position_change
  maybe_notify_position_change-IsSound c = search (preserves_rules, notify_second-IsSound)

  start_next-IsSound :
      (c : Clock) (o : Option QueueRequest) (s : Session)
      → count (playing_at v) s.db.queue_requests ≡ 0
      → IsSound v s.db
      → IsSound v (start_next c v o s).1.db
  unfolding write_row reload ◌>>=◌
  start_next-IsSound c none s quiet h = h
  start_next-IsSound c (some r) s quiet h = record {
    ids = λ k.
        rw
          (count-update_where_same (has_id k) (has_id r.id) (start_row c.now) (λ q. refl)
            s.db.queue_requests)
          (h.ids k);
    single = start_row-single c.now v r.id s.db.queue_requests quiet (h.ids r.id);
  }

  advance-IsSound :
      (c : Clock) (o : Option QueueRequest) (s : Session)
      → now_playing_row v s.db.queue_requests ≡ o
      → IsSound v s.db
      → IsSound v (advance c v o s).1.db
  unfolding ◌>>=◌
  advance-IsSound c (some r) s e h = h
  advance-IsSound c none s e h =
      start_next-IsSound c (next_up_row v s.db.queue_requests) s (now_playing_row-none v _ e) h

  pub auto_advance-IsSound : (c : Clock) → Preserves (IsSound v) (auto_advance c v)
  unfolding auto_advance ◌>>=◌
  auto_advance-IsSound c = record {
    run = λ s h. advance-IsSound c (now_playing_row v s.db.queue_requests) s refl h;
  }
