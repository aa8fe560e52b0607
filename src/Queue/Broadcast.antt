-- ===== src/Queue/Broadcast.antt =====
-- What follows a change of the queue (app/core/queue_service.py): the broadcast of the whole
-- state, the notice to the second in line, and the start of the next request.
pub mod Durability
pub mod Advance
use scales_infrastructure.Prelude.{
  ℕ, Bool, true, false, Option, none, some, List, [], ◌∷◌, String, length, if◌then◌else◌,
}
use scales_infrastructure.Models.Tables.{now_playing, up_soon, QueueRequest, Tables}
use scales_infrastructure.Models.Events.{
  queue_state, stats, stats_offline, now_playing_state, request_started, QueueStats,
}
use scales_infrastructure.Models.Session.{
  Clock, day_out_of_range, Action, pure, gets, or_raise, modify, commit, publish, best_effort,
  ◌>>=◌, ◌>>◌,
}
use scales_infrastructure.Notify.{notify_singer}
use scales_infrastructure.Queue.Rows.{write_row, reload, now_playing_row, next_up_row, dedupe_rows}
use scales_infrastructure.Queue.Order.{fifo, round_robin, get_active_queue}
use scales_infrastructure.Queue.Rotation.{queue_data}
use scales_infrastructure.Queue.Stats.{is_kj_online, compute_queue_stats}

-- `_dedupe_now_playing`; nothing commits what it writes.
unfoldable pub dedupe_now_playing : Clock → ℕ → Action (Unit {0})
dedupe_now_playing c v =
    modify (λ t. record t { queue_requests = dedupe_rows c.now v t.queue_requests })

unfoldable pub broadcast_offline : ℕ → Action (Unit {0})
broadcast_offline v = do
  publish (queue_state v [] 0)
  publish (stats_offline v)
  publish (now_playing_state v none)

unfoldable pub broadcast_live : Clock → ℕ → Action (Unit {0})
unfolding dedupe_now_playing
broadcast_live c v = do
  dedupe_now_playing c v
  items ← gets (get_active_queue v fifo)
  entries ← gets (λ t. queue_data t items)
  computed ← gets (compute_queue_stats c v)
  figures ← or_raise computed day_out_of_range
  publish (queue_state v entries (length entries))
  publish (stats v figures)
  publish (now_playing_state v figures.now_playing)

-- `broadcast_queue_state`
unfoldable pub broadcast_queue_state : Clock → ℕ → Action (Unit {0})
unfolding broadcast_live broadcast_offline
broadcast_queue_state c v = do
  online ← gets (is_kj_online c v)
  if online then broadcast_live c v else broadcast_offline v

abbrev pub second : List QueueRequest → Option QueueRequest
second (a ∷ b ∷ _) = some b
second _ = none

abbrev pub notify_second : Clock → ℕ → Option QueueRequest → Action (Unit {0})
notify_second c v none = pure tt
notify_second c v (some r) =
    notify_singer c r.singer_id v up_soon "You're up soon!"
      "You are 2nd in the queue. Get ready to sing!" r.id

-- `_maybe_notify_position_change`
unfoldable pub maybe_notify_position_change : Clock → ℕ → Action (Unit {0})
maybe_notify_position_change c v =
    best_effort (gets (λ t. second (get_active_queue v round_robin t)) >>= notify_second c v)

abbrev pub start_row : ℕ → QueueRequest → QueueRequest
start_row now r = record r { status = now_playing; updated_at = some now }

abbrev pub start_next : Clock → ℕ → Option QueueRequest → Action (Option QueueRequest)
start_next c v none = pure none
start_next c v (some r) = do
  write_row r.id (start_row c.now)
  commit
  publish (request_started v r.id true)
  started ← reload r
  pure (some started)

abbrev pub advance : Clock → ℕ → Option QueueRequest → Action (Option QueueRequest)
advance c v none = gets (λ t. next_up_row v t.queue_requests) >>= start_next c v
advance c v (some r) = pure none

-- `_auto_advance`
unfoldable pub auto_advance : Clock → ℕ → Action (Option QueueRequest)
auto_advance c v = gets (λ t. now_playing_row v t.queue_requests) >>= advance c v
