-- ===== src/Sync/Acknowledged.antt =====
-- What an acknowledgement of the KJ desktop closes (app/routers/kj_sync.py, `ack_singer_removals`
-- and `ack_queue_request`).
use scales_infrastructure.Prelude.{
  ℕ, ◌≡◌, Bool, true, Bool-cases, inl, inr, ◌&&◌, none, some, List, [], ◌∷◌, ◌==◌, any_of, count,
  is_none, if◌then◌else◌, find, update_where, arith,
}
use scales_infrastructure.Models.Tables.{QueueRequest, SingerRemoval, Tables}
use scales_infrastructure.Models.Session.{Clock, Session, Action, ◌>>=◌}
use scales_infrastructure.Queue.Rows.{has_id, write_row}
use scales_infrastructure.Queue.Removal.{deleted_row, open_removal}
use scales_infrastructure.Queue.Broadcast as Queues
use scales_infrastructure.Sync.{open_removal_of, ack_singer_removals}
use scales_infrastructure.Models.Session.Uncommitted.{Uncommitted}
use scales_infrastructure.Queue.Broadcast.Durability.{broadcast_queue_state-Uncommitted}
use scales_infrastructure.Sync.Removals.{
  in_background, broadcast_queue, request_at, dismiss, ack_queue_request,
}

-- Whether the removals of a singer at a venue are among those that are acknowledged.
abbrev is_acknowledged : ℕ → List ℕ → ℕ → ℕ → Bool
is_acknowledged v ids w k = (w == v) && any_of (λ j. k == j) ids

module _ (now v : ℕ) (ids : List ℕ) where
  abbrev acknowledged : SingerRemoval → SingerRemoval
  acknowledged r = record r { acknowledged_at = some now }

  open_removal_here :
      (w k : ℕ) (r : SingerRemoval)
      → open_removal w k r ≡ true
      → open_removal_of v ids r ≡ is_acknowledged v ids w k
  open_removal_here w k r h =
      let venue : r.venue_id ≡ w = ground (arith, h) in
      let singer : r.singer_id ≡ k = ground (arith, h) in
      let none_yet : is_none r.acknowledged_at ≡ true = ground (arith, h) in
      rw (venue, singer) (ground (arith, none_yet))

  open_removal-acknowledged :
      (w k : ℕ) (rows : List SingerRemoval)
      → count (open_removal w k) (update_where (open_removal_of v ids) acknowledged rows)
        ≡ (if is_acknowledged v ids w k then 0 else count (open_removal w k) rows)
  open_removal-acknowledged w k [] = ground arith
  open_removal-acknowledged w k (r ∷ rows) = elim (Bool-cases (open_removal w k r)) [
    | inl here ↦
        ground (arith, here, open_removal_here w k r here, open_removal-acknowledged w k rows)
    | inr away ↦ ground (arith, away, open_removal-acknowledged w k rows)
  ]

-- An acknowledgement closes the open removals of the singers named, at the desktop's venue, and
-- leaves those of other singers and venues open, durably.
pub ack_singer_removals_lem :
    (c : Clock) (v : ℕ) (ids : List ℕ) (w k : ℕ) (s : Session)
    → count (open_removal w k) (ack_singer_removals c none v ids s).1.committed.singer_removals
      ≡ (if is_acknowledged v ids w k then 0 else count (open_removal w k) s.db.singer_removals)
unfolding ack_singer_removals ◌>>=◌
ack_singer_removals_lem c v ids w k s =
    let own : (v == v) ≡ true = ground arith in
    rw own (open_removal-acknowledged c.now v ids w k s.db.singer_removals)

in_background-Uncommitted :
    (task : Action (Unit {0})) → Uncommitted task → Uncommitted (in_background task)
unfolding in_background ◌>>=◌
in_background-Uncommitted task quiet = record { run = λ s. quiet.run _ }

broadcast_queue-Uncommitted : (c : Clock) (v : ℕ) → Uncommitted (broadcast_queue c v)
unfolding broadcast_queue
broadcast_queue-Uncommitted c v =
    in_background-Uncommitted (Queues.broadcast_queue_state c v)
      (broadcast_queue_state-Uncommitted c v)

-- A request of the venue that the desktop dismisses is deleted durably, whatever its status was and
-- whatever becomes of the broadcast; nothing else changes durably.
pub ack_queue_request_lem :
    (c : Clock) (v rid : ℕ) (r : QueueRequest) (s : Session)
    → find (request_at v rid) s.db.queue_requests ≡ some r
    → (ack_queue_request c none v rid s).1.committed ≡ record s.db {
      queue_requests = update_where (has_id r.id) (deleted_row c.now) s.db.queue_requests;
    }
unfolding ack_queue_request dismiss write_row ◌>>=◌
ack_queue_request_lem c v rid r s found =
    let own : (v == v) ≡ true = ground arith in
    let t : Tables = record s.db {
      queue_requests = update_where (has_id r.id) (deleted_row c.now) s.db.queue_requests;
    } in
    rw own (rw found ((broadcast_queue-Uncommitted c v).run (record s { db = t; committed = t })))
