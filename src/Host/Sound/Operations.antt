-- ===== src/Host/Sound/Operations.antt =====
-- Every operation of app/core/host_rotation_service.py on single items keeps the invariant of
-- the live rotation.
use scales_infrastructure.Prelude.{
  ℕ, suc, ◌≡◌, refl, Option, List, [], ◌∷◌, count, count-update_where_same, update_where, arith,
}
use scales_infrastructure.Models.Tables.{HostRotation, SingerRemoval}
use scales_infrastructure.Models.Session.{Clock, ◌>>=◌}
use scales_infrastructure.Models.Session.Preserves.{Preserves, preserves_rules}
use scales_infrastructure.Queue.Removal.{record_removal, add_removal}
use scales_infrastructure.Host.Rows.{has_id, playing_at, write_rows}
use scales_infrastructure.Host.Snapshot.{deleted_row}
use scales_infrastructure.Host.Actions.{
  show, complete, complete_row, skip, skip_row, skip_to_end, place_row, remove, reorder,
  reorder_by_singer, set_positions, write_positions, remove_singer, announce_removal, active_of,
}
use scales_infrastructure.Host.Sound.{
  IsSound, get_item-IsSound, reload-IsSound, write_rows-IsSound, broadcast_queue_state-IsSound,
  auto_advance-IsSound,
}

module _ (v : ℕ) where
  show-IsSound : (c : Clock) (item : HostRotation) → Preserves (IsSound v) (show c v item)
  unfolding show
  show-IsSound c item =
      search (preserves_rules, reload-IsSound, broadcast_queue_state-IsSound) depth 20

  ruleset sound_steps = (
    preserves_rules, get_item-IsSound, show-IsSound, broadcast_queue_state-IsSound,
    auto_advance-IsSound,
  )

  complete_write :
      (c : Clock) (rid : ℕ) → Preserves (IsSound v) (write_rows (has_id rid) (complete_row c.now))
  complete_write c rid =
      write_rows-IsSound v (has_id rid) (complete_row c.now) (λ r. refl)
        (λ r h. absurd (ground arith))

  pub complete-IsSound : (c : Clock) (rid : ℕ) → Preserves (IsSound v) (complete c v rid)
  unfolding complete
  complete-IsSound c rid = search (sound_steps, complete_write) depth 20

  skip_write :
      (c : Clock) (rid : ℕ) → Preserves (IsSound v) (write_rows (has_id rid) (skip_row c.now))
  skip_write c rid =
      write_rows-IsSound v (has_id rid) (skip_row c.now) (λ r. refl) (λ r h. absurd (ground arith))

  pub skip-IsSound : (c : Clock) (rid : ℕ) → Preserves (IsSound v) (skip c v rid)
  unfolding skip
  skip-IsSound c rid = search (sound_steps, skip_write) depth 20

  place_write :
      (c : Clock) (rid n : ℕ) → Preserves (IsSound v) (write_rows (has_id rid) (place_row c.now n))
  place_write c rid n = write_rows-IsSound v (has_id rid) (place_row c.now n) (λ r. refl) (λ r h. h)

  pub skip_to_end-IsSound : (c : Clock) (rid : ℕ) → Preserves (IsSound v) (skip_to_end c v rid)
  unfolding skip_to_end
  skip_to_end-IsSound c rid = search (sound_steps, place_write) depth 20

  delete_write :
      (c : Clock) (rid : ℕ) → Preserves (IsSound v) (write_rows (has_id rid) (deleted_row c.now))
  delete_write c rid =
      write_rows-IsSound v (has_id rid) (deleted_row c.now) (λ r. refl) (λ r h. ground arith)

  pub remove-IsSound : (c : Clock) (rid : ℕ) → Preserves (IsSound v) (remove c v rid)
  unfolding remove
  remove-IsSound c rid = search (sound_steps, delete_write) depth 20

  set_positions-ids :
      (now n : ℕ) (ids : List ℕ) (k : ℕ) (rows : List HostRotation)
      → count (has_id k) (set_positions now n ids rows) ≡ count (has_id k) rows
  unfolding set_positions
  set_positions-ids now n [] k rows = refl
  set_positions-ids now n (rid ∷ rids) k rows = rw (
    set_positions-ids now (suc n) rids k (update_where (has_id rid) (place_row now n) rows),
    count-update_where_same (has_id k) (has_id rid) (place_row now n) (λ r. refl) rows,
  )

  set_positions-playing :
      (now n : ℕ) (ids : List ℕ) (rows : List HostRotation)
      → count (playing_at v) (set_positions now n ids rows) ≡ count (playing_at v) rows
  unfolding set_positions
  set_positions-playing now n [] rows = refl
  set_positions-playing now n (rid ∷ rids) rows = rw (
    set_positions-playing now (suc n) rids (update_where (has_id rid) (place_row now n) rows),
    count-update_where_same (playing_at v) (has_id rid) (place_row now n) (λ r. refl) rows,
  )

  write_positions-IsSound :
      (c : Clock) (ids : List ℕ) → Preserves (IsSound v) (write_positions c ids)
  unfolding write_positions ◌>>=◌
  write_positions-IsSound c ids = record {
    run = λ s h. record {
      ids = λ k. rw (set_positions-ids c.now 1 ids k s.db.host_rotation) (h.ids k);
      single = rw (set_positions-playing c.now 1 ids s.db.host_rotation) h.single;
    };
  }

  pub reorder-IsSound : (c : Clock) (ids : List ℕ) → Preserves (IsSound v) (reorder c v ids)
  unfolding reorder
  reorder-IsSound c [] = search sound_steps
  reorder-IsSound c (rid ∷ rids) = search (sound_steps, write_positions-IsSound) depth 20

  pub reorder_by_singer-IsSound :
      (c : Clock) (sids : List ℕ) → Preserves (IsSound v) (reorder_by_singer c v sids)
  unfolding reorder_by_singer
  reorder_by_singer-IsSound c [] = search sound_steps
  reorder_by_singer-IsSound c (sid ∷ sids) = search (sound_steps, write_positions-IsSound) depth 20

  add_removal-IsSound : (m : SingerRemoval) → Preserves (IsSound v) (add_removal m)
  unfolding ◌>>=◌
  add_removal-IsSound m = record { run = λ s h. record { ids = h.ids; single = h.single } }

  record_removal-IsSound :
      (c : Clock) (singer : ℕ) (account device : Option ℕ)
      → Preserves (IsSound v) (record_removal c v singer account device)
  unfolding record_removal
  record_removal-IsSound c singer account device =
      search (sound_steps, add_removal-IsSound) depth 20

  announce_removal-IsSound :
      (c : Clock) (singer : ℕ) (account device : Option ℕ) (ids : List ℕ)
      → Preserves (IsSound v) (announce_removal c v singer account device ids)
  unfolding announce_removal
  announce_removal-IsSound c singer account device [] = search sound_steps
  announce_removal-IsSound c singer account device (rid ∷ rids) =
      search (sound_steps, record_removal-IsSound) depth 20

  removal_write :
      (c : Clock) (singer : ℕ)
      → Preserves (IsSound v) (write_rows (active_of v singer) (deleted_row c.now))
  removal_write c singer =
      write_rows-IsSound v (active_of v singer) (deleted_row c.now) (λ r. refl)
        (λ r h. ground arith)

  pub remove_singer-IsSound :
      (c : Clock) (singer : ℕ) (account device : Option ℕ)
      → Preserves (IsSound v) (remove_singer c v singer account device)
  unfolding remove_singer
  remove_singer-IsSound c singer account device =
      search (sound_steps, removal_write, announce_removal-IsSound) depth 20
