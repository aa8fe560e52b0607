-- ===== src/Queue/Actions/Award.antt =====
-- A completed request is paid once (app/core/queue_service.py, `complete`).
use scales_infrastructure.Prelude.{
  ℕ, pos, ◌≡◌, refl, ap, ◌∙◌, true, some, List, [], ◌∷◌, ◌++◌, find, inl, inr, Option-cases,
}
use scales_infrastructure.Models.Tables.{perform, PointsEntry, QueueRequest, Tables}
use scales_infrastructure.Models.Session.{Clock, Session, ◌>>=◌, ◌>>◌}
use scales_infrastructure.Points.{add_points, record_points}
use scales_infrastructure.Queue.Rows.{
  item_at, is_completable, get_item, write_row, reload, now_playing_row, next_up_row,
}
use scales_infrastructure.Queue.Broadcast.{auto_advance, broadcast_queue_state}
use scales_infrastructure.Queue.Actions.{complete, award}
use scales_infrastructure.Queue.Actions.Outcome.{closing-Uncommitted}

abbrev HasLedger : List PointsEntry → Session → Type 0
HasLedger l s = (s.db.points_ledger ≡ l) × (s.committed.points_ledger ≡ l)

-- Neither the next start nor the broadcast writes points.
finishing-ledger :
    (c : Clock) (v : ℕ) (item : QueueRequest) (l : List PointsEntry) (s : Session)
    → HasLedger l s
    → let (r, s') = (auto_advance c v >> (broadcast_queue_state c v >> reload item)) s in
      s'.committed.points_ledger ≡ l
unfolding auto_advance write_row reload ◌>>=◌
finishing-ledger c v item l s h = elim (Option-cases (now_playing_row v s.db.queue_requests)) [
  | inr (r, busy) ↦ rw busy (close _ ∙ h.1)
  | inl quiet ↦ elim (Option-cases (next_up_row v s.db.queue_requests)) [
    | inl nobody ↦ rw quiet (rw nobody (close _ ∙ h.1))
    | inr (r, next) ↦ rw quiet (rw next (close _ ∙ h.0))
  ]
]
  where
    close :
        (s' : Session)
        → ((broadcast_queue_state c v >> reload item) s').1.committed.points_ledger
          ≡ s'.committed.points_ledger
    close s' = ap (λ (t : Tables). t.points_ledger) ((closing-Uncommitted c v item).run s')

-- Completing a singer's request that is approved or playing appends one entry to the ledger, durably: 25
-- points for that singer, with the request as its reference.
pub complete-awards :
    (c : Clock) (v rid singer : ℕ) (s : Session) {item : QueueRequest}
    → find (item_at v rid) s.db.queue_requests ≡ some item
    → is_completable item.status ≡ true
    → item.singer_id ≡ some singer
    → (complete c v rid s).1.committed.points_ledger
      ≡ s.db.points_ledger
        ++ record {
          venue_id = v;
          singer_id = singer;
          amount = pos 25;
          reason = "Performance completed";
          reference_type = some perform;
          reference_id = some rid;
          created_at = c.now;
        }
          ∷ []
unfolding complete award get_item write_row add_points record_points ◌>>=◌
complete-awards c v rid singer s {item} found allowed named =
    rw found (rw allowed (rw named (finishing-ledger c v _ _ _ (refl, refl))))
