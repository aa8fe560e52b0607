-- ===== src/Host/Actions/Advance.antt =====
-- What the end of an item leads to (app/core/host_rotation_service.py, `complete`, `skip` and
-- `_auto_advance`).
use scales_infrastructure.Prelude.{ℕ, ◌≡◌, ap, true, false, none, some, find, update_where}
use scales_infrastructure.Models.Tables.{HostRotation, Tables}
use scales_infrastructure.Models.Session.{Clock, Session, ◌>>=◌}
use scales_infrastructure.Models.Session.Uncommitted.{Uncommitted, uncommitted_rules}
use scales_infrastructure.Queue.Rows.{is_now_playing}
use scales_infrastructure.Host.Rows.{
  has_id, item_at, is_completable, is_skippable, get_item, write_rows, reload, now_playing_row,
  next_row,
}
use scales_infrastructure.Host.Broadcast.{start_row, auto_advance}
use scales_infrastructure.Host.Playing.Stage.{broadcast-Uncommitted}
use scales_infrastructure.Host.Actions.{show, complete, complete_row, skip, skip_row}

show-Uncommitted : (c : Clock) (v : ℕ) (item : HostRotation) → Uncommitted (show c v item)
unfolding show reload
show-Uncommitted c v item = search (uncommitted_rules, broadcast-Uncommitted) depth 20

-- Skipping any item that may be skipped, on stage or not, starts the next one, durably, where no
-- item is on stage after it.
pub skip-starts :
    (c : Clock) (v rid : ℕ) (s : Session) (item r : HostRotation)
    → find (item_at v rid) s.db.host_rotation ≡ some item
    → is_skippable item.status ≡ true
    → now_playing_row v (update_where (has_id rid) (skip_row c.now) s.db.host_rotation) ≡ none
    → next_row v (update_where (has_id rid) (skip_row c.now) s.db.host_rotation) ≡ some r
    → (skip c v rid s).1.committed.host_rotation
      ≡ update_where
          (has_id r.id)
          (start_row c.now)
          (update_where (has_id rid) (skip_row c.now) s.db.host_rotation)
unfolding skip get_item write_rows auto_advance reload ◌>>=◌
skip-starts c v rid s item r found may quiet next = rw found (
    rw may (
      rw quiet
        (rw next (ap (λ (t : Tables). t.host_rotation) ((show-Uncommitted c v item).run _)))))

-- Completing an item that was not on stage ends that item, durably, and changes no other.
pub complete-only :
    (c : Clock) (v rid : ℕ) (s : Session) (item : HostRotation)
    → find (item_at v rid) s.db.host_rotation ≡ some item
    → is_completable item.status ≡ true
    → is_now_playing item.status ≡ false
    → (complete c v rid s).1.committed.host_rotation
      ≡ update_where (has_id rid) (complete_row c.now) s.db.host_rotation
unfolding complete get_item write_rows ◌>>=◌
complete-only c v rid s item found may off =
    rw found
      (rw may (rw off (ap (λ (t : Tables). t.host_rotation) ((show-Uncommitted c v item).run _))))
