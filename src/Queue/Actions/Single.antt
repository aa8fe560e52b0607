-- ===== src/Queue/Actions/Single.antt =====
-- Every operation of QueueService on a request keeps the primary keys unique and at most one
-- request of the venue playing (app/core/queue_service.py).
use scales_infrastructure.Prelude.{
  ℕ, ◌≡◌, refl, not, Option, none, some, String, inl, inr, Bool-cases, Option-cases, find,
  count-update_where_same, arith,
}
use scales_infrastructure.Models.Tables.{QueueRequest}
use scales_infrastructure.Models.Session.{Clock, Session, raise_if, bad_status, ◌>>=◌, ◌>>◌}
use scales_infrastructure.Models.Session.Preserves.{Preserves, preserves_rules}
use scales_infrastructure.Queue.Rows.{
  has_id, item_at, get_item, write_row, now_playing_row, is_waiting,
}
use scales_infrastructure.Queue.Broadcast.{start_row}
use scales_infrastructure.Queue.Playing.{IsSound, now_playing_row-none, start_row-single}
use scales_infrastructure.Queue.Playing.Steps.{
  get_item-IsSound, reload-IsSound, write_row-IsSound, notify_singer-IsSound, add_points-IsSound,
  broadcast_queue_state-IsSound, maybe_notify_position_change-IsSound, auto_advance-IsSound,
}
use scales_infrastructure.Queue.Actions.{
  announce_start, approve, approve_row, reject, reject_row, start, award, complete, complete_row,
  skip, skip_row, cancel, delete_row, update, edit_row,
}

module _ (v : ℕ) where
  ruleset sound_steps = (
    preserves_rules, get_item-IsSound, reload-IsSound, notify_singer-IsSound, add_points-IsSound,
    broadcast_queue_state-IsSound, maybe_notify_position_change-IsSound, auto_advance-IsSound,
  )

  approve_write : (c : Clock) (rid : ℕ) → Preserves (IsSound v) (write_row rid (approve_row c.now))
  approve_write c rid =
      write_row-IsSound v rid (approve_row c.now) (λ r. refl) (λ r h. absurd (ground arith))

  pub approve-IsSound : (c : Clock) (rid : ℕ) → Preserves (IsSound v) (approve c v rid)
  unfolding approve
  approve-IsSound c rid = search (sound_steps, approve_write) depth 20

  reject_write :
      (c : Clock) (rid : ℕ) (reason : Option String)
      → Preserves (IsSound v) (write_row rid (reject_row c.now reason))
  reject_write c rid reason =
      write_row-IsSound v rid (reject_row c.now reason) (λ r. refl) (λ r h. absurd (ground arith))

  pub reject-IsSound :
      (c : Clock) (rid : ℕ) (reason by : Option String)
      → Preserves (IsSound v) (reject c v rid reason by)
  unfolding reject
  reject-IsSound c rid reason by = search (sound_steps, reject_write) depth 20

  award-IsSound :
      (c : Clock) (rid : ℕ) (singer : Option ℕ) → Preserves (IsSound v) (award c v rid singer)
  unfolding award
  award-IsSound c rid none = search preserves_rules
  award-IsSound c rid (some singer) = search add_points-IsSound

  complete_write :
      (c : Clock) (rid : ℕ) → Preserves (IsSound v) (write_row rid (complete_row c.now))
  complete_write c rid =
      write_row-IsSound v rid (complete_row c.now) (λ r. refl) (λ r h. absurd (ground arith))

  pub complete-IsSound : (c : Clock) (rid : ℕ) → Preserves (IsSound v) (complete c v rid)
  unfolding complete
  complete-IsSound c rid = search (sound_steps, award-IsSound, complete_write) depth 20

  skip_write : (c : Clock) (rid : ℕ) → Preserves (IsSound v) (write_row rid (skip_row c.now))
  skip_write c rid =
      write_row-IsSound v rid (skip_row c.now) (λ r. refl) (λ r h. absurd (ground arith))

  pub skip-IsSound : (c : Clock) (rid : ℕ) → Preserves (IsSound v) (skip c v rid)
  unfolding skip
  skip-IsSound c rid = search (sound_steps, skip_write) depth 20

  cancel_write : (c : Clock) (rid : ℕ) → Preserves (IsSound v) (write_row rid (delete_row c.now))
  cancel_write c rid = write_row-IsSound v rid (delete_row c.now) (λ r. refl) (λ r h. ground arith)

  pub cancel-IsSound : (c : Clock) (rid : ℕ) → Preserves (IsSound v) (cancel c v rid)
  unfolding cancel
  cancel-IsSound c rid = search (sound_steps, cancel_write) depth 20

  update_write :
      (c : Clock) (rid : ℕ) (notes dedication : Option String)
      → Preserves (IsSound v) (write_row rid (edit_row c.now notes dedication))
  update_write c rid notes dedication =
      write_row-IsSound v rid (edit_row c.now notes dedication) (λ r. ground arith)
        (λ r h. ground arith)

  pub update-IsSound :
      (c : Clock) (rid : ℕ) (notes dedication : Option String)
      → Preserves (IsSound v) (update c v rid notes dedication)
  unfolding update
  update-IsSound c rid notes dedication = search (sound_steps, update_write) depth 20

  announce_start-IsSound :
      (c : Clock) (rid : ℕ) (item : QueueRequest)
      → Preserves (IsSound v) (announce_start c v rid item)
  unfolding announce_start
  announce_start-IsSound c rid item = search sound_steps depth 20

  write_start :
      (c : Clock) (rid : ℕ) (s : Session)
      → now_playing_row v s.db.queue_requests ≡ none
      → IsSound v s.db
      → IsSound v (write_row rid (start_row c.now) s).1.db
  unfolding write_row ◌>>=◌
  write_start c rid s e h = record {
    ids = λ k.
        rw
          (count-update_where_same (has_id k) (has_id rid) (start_row c.now) (λ q. refl)
            s.db.queue_requests)
          (h.ids k);
    single =
        start_row-single c.now v rid s.db.queue_requests (now_playing_row-none v _ e) (h.ids rid);
  }

  play-IsSound :
      (c : Clock) (rid : ℕ) (item : QueueRequest) (s : Session)
      → now_playing_row v s.db.queue_requests ≡ none
      → IsSound v s.db
      → IsSound v
          ((raise_if (not (is_waiting item.status)) (bad_status item.status)
              >> (write_row rid (start_row c.now) >> announce_start c v rid item))
            s).1.db
  unfolding ◌>>=◌ write_row
  play-IsSound c rid item s e h = elim (Bool-cases (is_waiting item.status)) [
    | inl waits ↦ rw waits ((announce_start-IsSound c rid item).run _ (write_start c rid s e h))
    | inr busy ↦ rw busy h
  ]

  -- `start` refuses while a request plays, so it never makes a second one play.
  pub start-IsSound : (c : Clock) (rid : ℕ) → Preserves (IsSound v) (start c v rid)
  unfolding start ◌>>=◌ get_item
  start-IsSound c rid = record {
    run = λ s h. elim (Option-cases (now_playing_row v s.db.queue_requests)) [
      | inl quiet ↦ rw quiet (elim (Option-cases (find (item_at v rid) s.db.queue_requests)) [
        | inl missing ↦ rw missing h
        | inr (item, found) ↦ rw found (play-IsSound c rid item s quiet h)
      ])
      | inr (r, playing) ↦ rw playing h
    ];
  }
