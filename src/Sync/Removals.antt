-- ===== src/Sync/Removals.antt =====
-- What the KJ desktop dismisses or takes out of the rotation, with the tasks that run after the
-- answer (app/routers/kj_sync.py, `ack_queue_request` and `remove_singer_from_rotation`).
use scales_infrastructure.Prelude.{ℕ, Bool, ◌&&◌, Option, none, some, ◌==◌, get_or, find}
use scales_infrastructure.Models.Tables.{QueueRequest}
use scales_infrastructure.Models.Session.{
  Clock, Action, pure, gets, commit, rollback, best_effort, ◌>>=◌, ◌>>◌,
}
use scales_infrastructure.Queue.Rows.{has_id, write_row}
use scales_infrastructure.Queue.Removal.{deleted_row}
use scales_infrastructure.Queue.Broadcast as Queues
use scales_infrastructure.Host.Broadcast as Rotations
use scales_infrastructure.Host.Actions.{remove_singer}
use scales_infrastructure.Sync.{require_venue_match}

-- A background task: it runs in a session of its own, which is closed after it; a failure is logged.
unfoldable pub in_background : Action (Unit {0}) → Action (Unit {0})
in_background task = rollback >> best_effort task >> rollback

-- `_broadcast_queue_state`
unfoldable pub broadcast_queue : Clock → ℕ → Action (Unit {0})
unfolding in_background
broadcast_queue c v = in_background (Queues.broadcast_queue_state c v)

-- `_broadcast_host_rotation_state`
unfoldable pub broadcast_rotation : Clock → ℕ → Action (Unit {0})
unfolding in_background
broadcast_rotation c v = in_background (Rotations.broadcast_queue_state c v)

-- The row that is asked for, deleted or not.
abbrev pub request_at : ℕ → ℕ → QueueRequest → Bool
request_at v rid r = has_id rid r && (r.venue_id == v)

unfoldable pub dismiss : Clock → ℕ → Option QueueRequest → Action (Unit {0})
unfolding broadcast_queue
dismiss c v none = pure tt
dismiss c v (some r) = do write_row r.id (deleted_row c.now); commit; broadcast_queue c v

-- `ack_queue_request`, with the task that it leaves behind.
unfoldable pub ack_queue_request : Clock → Option ℕ → ℕ → ℕ → Action (Unit {0})
unfolding require_venue_match dismiss
ack_queue_request c venue current rid = do
  require_venue_match (get_or venue current) current
  row ← gets (λ t. find (request_at (get_or venue current) rid) t.queue_requests)
  dismiss c (get_or venue current) row

-- `remove_singer_from_rotation`, for a singer's id that is a UUID, with the task that it leaves
-- behind.
unfoldable pub remove_from_rotation : Clock → Option ℕ → ℕ → ℕ → ℕ → Action (Unit {0})
unfolding require_venue_match broadcast_rotation
remove_from_rotation c venue current device singer = do
  require_venue_match (get_or venue current) current
  remove_singer c (get_or venue current) singer none (some device)
  commit
  broadcast_rotation c (get_or venue current)
