-- ===== src/Points/Frame.antt =====
-- What `add_points` leaves alone (app/core/points_service.py).
use scales_infrastructure.Prelude.{
  ℕ, ℤ, pos, eqb_ℤ, ◌≡◌, Option, String, inl, inr, Bool-cases, refl,
}
use scales_infrastructure.Models.Tables.{ReferenceType}
use scales_infrastructure.Models.Session.{Clock, Session, ◌>>=◌}
use scales_infrastructure.Points.{add_points, record_points}

-- The queue, the rotation and the removals are not touched, and nothing is published.
pub add_points-frame :
    (c : Clock) (v : ℕ) (singer : ℕ) (amount : ℤ) (reason : String) (kind : Option ReferenceType)
    (ref : Option ℕ) (s : Session)
    → let s' = (add_points c v singer amount reason kind ref s).1 in
      (s'.db.queue_requests ≡ s.db.queue_requests)
      × (s'.db.host_rotation ≡ s.db.host_rotation)
      × (s'.db.singer_removals ≡ s.db.singer_removals)
      × (s'.events ≡ s.events)
unfolding add_points record_points ◌>>=◌
add_points-frame c v singer amount reason kind ref s = elim (Bool-cases (eqb_ℤ amount (pos 0))) [
  | inl e ↦ rw e (refl, refl, refl, refl)
  | inr e ↦ rw e (refl, refl, refl, refl)
]
