-- ===== src/Queue/Broadcast/Advance.antt =====
-- Auto-advance, and what a completed or skipped request leads to (app/core/queue_service.py,
-- `_auto_advance`).
use scales_infrastructure.Prelude.{
  ℕ, ◌≡◌, true, none, some, List, [], ◌∷◌, first, select, sort, subst, IsTotalPreorder, All,
  All-sort, All-select, update_where, first-sort-least, lexi-IsTotalPreorder,
  by_column-IsTotalPreorder,
}
use scales_infrastructure.Models.Tables.{QueueRequest}
use scales_infrastructure.Models.Session.{Clock, Session, ok, ◌>>=◌}
use scales_infrastructure.Queue.Rows.{
  has_id, waiting_at, now_playing_row, next_up_row, next_first, write_row, reload,
}
use scales_infrastructure.Queue.Broadcast.{auto_advance, start_row}

-- The head of a sort meets what all elements meet.
first-All {κ} :
    (P : QueueRequest → Type κ) (l : List QueueRequest) (r : QueueRequest)
    → first l ≡ some r
    → All P l
    → P r
first-All P [] r e h = cc
first-All P (q ∷ l) r e h = let same_row : q ≡ r = cc in subst P same_row h.0

next_first-IsTotalPreorder : IsTotalPreorder next_first
next_first-IsTotalPreorder =
    lexi-IsTotalPreorder _ _ (by_column-IsTotalPreorder (λ r. r.rotation_position))
      (by_column-IsTotalPreorder (λ r. r.requested_at))

-- Where nothing plays and a request waits, approved or still pending, auto-advance starts, durably,
-- the waiting request that comes first by position and then by time, and changes no other row.
pub auto_advance-starts :
    (c : Clock) (v : ℕ) (s : Session) (r : QueueRequest)
    → now_playing_row v s.db.queue_requests ≡ none
    → next_up_row v s.db.queue_requests ≡ some r
    → (waiting_at v r ≡ true)
      × All
          (λ q. next_first r q ≡ true)
          (sort next_first (select (waiting_at v) s.db.queue_requests))
      × ((auto_advance c v s).1.committed.queue_requests
          ≡ update_where (has_id r.id) (start_row c.now) s.db.queue_requests)
unfolding auto_advance next_up_row write_row reload ◌>>=◌
auto_advance-starts c v s r quiet next =
    let waiting = select (waiting_at v) s.db.queue_requests in
    (
      first-All (λ q. waiting_at v q ≡ true) (sort next_first waiting) r next
          (All-sort next_first (λ q. waiting_at v q ≡ true) waiting
            (All-select (waiting_at v) s.db.queue_requests)),
      first-sort-least next_first next_first-IsTotalPreorder waiting r next,
      rw quiet (rw next),
    )

-- Where a request plays, auto-advance changes nothing.
pub auto_advance_busy :
    (c : Clock) (v : ℕ) (s : Session) {r : QueueRequest}
    → now_playing_row v s.db.queue_requests ≡ some r
    → auto_advance c v s ≡ (ok none, s)
unfolding auto_advance ◌>>=◌
auto_advance_busy c v s busy = rw busy
