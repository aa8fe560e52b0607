-- ===== src/Queue/Actions/Outcome.antt =====
-- What the operations of QueueService make durable, and what they refuse
-- (app/core/queue_service.py).
use scales_infrastructure.Prelude.{
  ℕ, ◌<◌, ◌≡◌, refl, ap, ◌∙◌, true, false, Option, some, String, find, update_where, arith,
}
use scales_infrastructure.Models.Tables.{Status, QueueRequest, Tables}
use scales_infrastructure.Models.Session.{
  Clock, Session, err, bad_status, day_out_of_range, ◌>>=◌, ◌>>◌,
}
use scales_infrastructure.Models.Session.Uncommitted.{Uncommitted, uncommitted_rules}
use scales_infrastructure.Queue.Rows.{
  has_id, item_at, is_terminal, is_completable, is_skippable, get_item, write_row, reload,
}
use scales_infrastructure.Queue.Stats.{is_kj_online, hour_of, day_of}
use scales_infrastructure.Queue.Broadcast.{broadcast_queue_state, maybe_notify_position_change}
use scales_infrastructure.Queue.Broadcast.Durability.{
  broadcast_queue_state-Uncommitted, maybe_notify-committed, maybe_notify-rows,
  broadcast_first_of_month,
}
use scales_infrastructure.Queue.Actions.{approve, approve_row, reject, reject_row, complete, skip}

reload-Uncommitted : (r : QueueRequest) → Uncommitted (reload r)
unfolding reload
reload-Uncommitted r = search uncommitted_rules

pub closing-Uncommitted :
    (c : Clock) (v : ℕ) (r : QueueRequest) → Uncommitted (broadcast_queue_state c v >> reload r)
closing-Uncommitted c v r =
    search (uncommitted_rules, broadcast_queue_state-Uncommitted, reload-Uncommitted)

-- The notice, the broadcast and the reading that end an approval commit no other change of the
-- requests.
noticed-commits :
    (c : Clock) (v : ℕ) (item : QueueRequest) (s : Session)
    → s.committed.queue_requests ≡ s.db.queue_requests
    → let (r, s') =
        (maybe_notify_position_change c v >> (broadcast_queue_state c v >> reload item)) s in
      s'.committed.queue_requests ≡ s.db.queue_requests
unfolding maybe_notify_position_change ◌>>=◌
noticed-commits c v item s h =
    ap (λ (t : Tables). t.queue_requests) ((closing-Uncommitted c v item).run _)
    ∙ maybe_notify-committed c v s h

is_kj_online-same :
    (c : Clock) (v : ℕ) (t u : Tables)
    → t.kj_devices ≡ u.kj_devices
    → is_kj_online c v t ≡ is_kj_online c v u
unfolding is_kj_online
is_kj_online-same c v t u e = rw e

noticed-raises :
    (c : Clock) (v : ℕ) (item : QueueRequest) (s : Session)
    → is_kj_online c v s.db ≡ true
    → day_of c.now ≡ 1
    → hour_of c.now < 8
    → ((maybe_notify_position_change c v >> (broadcast_queue_state c v >> reload item)) s).0
      ≡ err day_out_of_range
unfolding maybe_notify_position_change ◌>>=◌
noticed-raises c v item s online first early =
    let s' = (maybe_notify_position_change c v s).1 in
    let online' = is_kj_online-same c v s'.db s.db (maybe_notify-rows c v s).1 ∙ online in
    rw (broadcast_first_of_month c v s' online' first early) refl

finished_closed :
    (st : Status) → is_terminal st ≡ true → (is_completable st ≡ false) × (is_skippable st ≡ false)
finished_closed st h = ground arith

module _ (c : Clock) (v rid : ℕ) (s : Session) {item : QueueRequest}
    (found : find (item_at v rid) s.db.queue_requests ≡ some item) where
  -- An approval of a request that is not finished is durable, whatever becomes of the broadcast:
  -- the committed rows are the old ones with this row approved.
  pub approve-commits :
      is_terminal item.status ≡ false
      → (approve c v rid s).1.committed.queue_requests
        ≡ update_where (has_id rid) (approve_row c.now) s.db.queue_requests
  unfolding approve get_item write_row ◌>>=◌
  approve-commits live = rw found (rw live (noticed-commits c v item _ refl))

  pub reject-commits :
      (reason by : Option String)
      → is_terminal item.status ≡ false
      → (reject c v rid reason by s).1.committed.queue_requests
        ≡ update_where (has_id rid) (reject_row c.now reason) s.db.queue_requests
  unfolding reject get_item write_row ◌>>=◌
  reject-commits reason by live =
      rw found
        (rw live (ap (λ (t : Tables). t.queue_requests) ((closing-Uncommitted c v item).run _)))

  approve-raises :
      is_terminal item.status ≡ false
      → is_kj_online c v s.db ≡ true
      → day_of c.now ≡ 1
      → hour_of c.now < 8
      → (approve c v rid s).0 ≡ err day_out_of_range
  unfolding approve get_item write_row ◌>>=◌
  approve-raises live online first early =
      rw found (
        rw live
          (noticed-raises c v item _ (is_kj_online-same c v _ s.db refl ∙ online) first early))

  -- A finished request stays as it is: approve, reject, complete and skip raise on its status,
  -- and the session, its events included, is unchanged.
  pub finished_refused :
      (reason by : Option String)
      → is_terminal item.status ≡ true
      → (approve c v rid s ≡ (err (bad_status item.status), s))
        × (reject c v rid reason by s ≡ (err (bad_status item.status), s))
        × (complete c v rid s ≡ (err (bad_status item.status), s))
        × (skip c v rid s ≡ (err (bad_status item.status), s))
  unfolding approve reject complete skip get_item ◌>>=◌
  finished_refused reason by h =
      let done = finished_closed item.status h in
      rw found (rw (h, done.0, done.1) (refl, refl, refl, refl))

  -- Before 8 o'clock on the first of a month, with the KJ online, an approval is durable and is
  -- answered by an exception all the same.
  pub approve_first_of_month :
      is_terminal item.status ≡ false
      → is_kj_online c v s.db ≡ true
      → day_of c.now ≡ 1
      → hour_of c.now < 8
      → ((approve c v rid s).0 ≡ err day_out_of_range)
        × ((approve c v rid s).1.committed.queue_requests
            ≡ update_where (has_id rid) (approve_row c.now) s.db.queue_requests)
  approve_first_of_month live online first early =
      (approve-raises live online first early, approve-commits live)
