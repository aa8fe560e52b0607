-- ===== src/Tests/QueueRuns.antt =====
-- Runs of app/core/queue_service.py.
use scales_infrastructure.Prelude.{
  ℕ, pos, ◌+◌, ◌-◌, ◌*◌, ◌≤◌, ◌<◌, ◌≡◌, refl, true, none, some, List, [], ◌∷◌, length, count,
  select, get_or, update_where, sort, All, arith,
}
use scales_infrastructure.Models.Tables.{perform, QueueRequest}
use scales_infrastructure.Models.Session.{err, bad_status, day_out_of_range}
use scales_infrastructure.Queue.Rows.{
  has_id, waiting_at, next_first, active_at, now_playing_row, next_up_row,
}
use scales_infrastructure.Queue.Order.{fifo}
use scales_infrastructure.Models.Events.{QueueEntry}
use scales_infrastructure.Queue.Rotation.{
  queue_data, queue_entry, playing_index, rotation_view, avg_song_seconds,
}
use scales_infrastructure.Queue.Rotation.Wait.{queue_data-wraps}
use scales_infrastructure.Queue.Stats.{is_kj_online}
use scales_infrastructure.Queue.Broadcast.{auto_advance, start_row}
use scales_infrastructure.Queue.Broadcast.Advance.{auto_advance-starts}
use scales_infrastructure.Queue.Playing.{IsSound}
use scales_infrastructure.Queue.Actions.{approve, approve_row, reject, complete, skip}
use scales_infrastructure.Queue.Actions.Outcome.{
  approve-commits, finished_refused, approve_first_of_month,
}
use scales_infrastructure.Queue.Actions.Award.{complete-awards}
use scales_infrastructure.Queue.Reorder.{reorder, skip_to_end, max_position}
use scales_infrastructure.Queue.Reorder.Positions.{position_of, reorder-positions, skip_to_end-last}
use scales_infrastructure.Queue.Removal.{
  active_of, deleted_row, removed_row, open_removal, remove_singer_from_rotation,
}
use scales_infrastructure.Queue.Removal.Effect.{remove_singer_lem}
use scales_infrastructure.Queue.History.{
  complete_call, start_call, perform_all, perform_all-IsSound,
}
use scales_infrastructure.Tests.Samples.{
  evening, first_morning, playing_request, waiting_request, later_request, finished_request, show,
  session_of,
}

unique_keys : (k : ℕ) → count (has_id k) show ≤ 1
unique_keys k = ground arith

show-IsSound : IsSound 7 (session_of show).db
show-IsSound = record { ids = unique_keys; single = omega arith }

perform_all-IsSound_example :
    IsSound 7
      (perform_all 7
        ((evening, complete_call 1) ∷ (evening, start_call 4) ∷ [])
        (session_of show)).db
perform_all-IsSound_example =
    perform_all-IsSound 7 ((evening, complete_call 1) ∷ (evening, start_call 4) ∷ [])
      (session_of show) show-IsSound

approve-commits_example :
    (approve evening 7 4 (session_of show)).1.committed.queue_requests
    ≡ update_where (has_id 4) (approve_row 20260314213000) show
approve-commits_example =
    approve-commits evening 7 4 (session_of show) {item = later_request} refl refl

finished_refused_example :
    (approve evening 7 3 (session_of show)
      ≡ (err (bad_status finished_request.status), session_of show))
    × (reject evening 7 3 none none (session_of show)
        ≡ (err (bad_status finished_request.status), session_of show))
    × (complete evening 7 3 (session_of show)
        ≡ (err (bad_status finished_request.status), session_of show))
    × (skip evening 7 3 (session_of show)
        ≡ (err (bad_status finished_request.status), session_of show))
finished_refused_example =
    finished_refused evening 7 3 (session_of show) {item = finished_request} refl none none refl

approve_first_of_month_example :
    ((approve first_morning 7 4 (session_of show)).0 ≡ err day_out_of_range)
    × ((approve first_morning 7 4 (session_of show)).1.committed.queue_requests
        ≡ update_where (has_id 4) (approve_row 20260401071500) show)
unfolding is_kj_online
approve_first_of_month_example =
    approve_first_of_month first_morning 7 4 (session_of show) {item = later_request} refl refl refl
      refl (omega arith)

complete-awards_example :
    (complete evening 7 1 (session_of show)).1.committed.points_ledger
    ≡ record {
      venue_id = 7;
      singer_id = 31;
      amount = pos 25;
      reason = "Performance completed";
      reference_type = some perform;
      reference_id = some 1;
      created_at = 20260314213000;
    }
      ∷ []
complete-awards_example =
    complete-awards evening 7 1 31 (session_of show) {item = playing_request} refl refl refl

abbrev quiet_show : List QueueRequest
quiet_show = later_request ∷ waiting_request ∷ []

auto_advance-starts_example :
    (waiting_at 7 waiting_request ≡ true)
    × All
        (λ q. next_first waiting_request q ≡ true)
        (sort next_first (select (waiting_at 7) quiet_show))
    × ((auto_advance evening 7 (session_of quiet_show)).1.committed.queue_requests
        ≡ update_where (has_id 2) (start_row 20260314213000) quiet_show)
unfolding now_playing_row next_up_row
auto_advance-starts_example =
    auto_advance-starts evening 7 (session_of quiet_show) waiting_request refl refl

reorder-positions_example :
    position_of 1 (reorder evening 7 (4 ∷ 1 ∷ []) fifo (session_of show)).1.committed.queue_requests
    ≡ some (1 + 1)
reorder-positions_example =
    reorder-positions evening 7 (4 ∷ 1 ∷ []) fifo (session_of show) (refl, (refl, tt)) refl 1 1 refl

skip_to_end-last_example :
    let active = select (active_at 7) show in
    (position_of 1 (skip_to_end evening 7 1 (session_of show)).1.committed.queue_requests
      ≡ some (max_position active + 1))
    × All (λ r. get_or r.rotation_position 0 < max_position active + 1) active
skip_to_end-last_example =
    skip_to_end-last evening 7 1 (session_of show) {item = playing_request} refl refl

remove_singer_lem_example :
    let t' =
      (remove_singer_from_rotation evening 7 31 none none true (session_of show)).1.committed in
    (t'.queue_requests
      ≡ update_where
          (active_of 7 31)
          (λ r. deleted_row 20260314213000 (removed_row 20260314213000 r))
          show)
    × (count (open_removal 7 31) t'.singer_removals ≡ 1)
remove_singer_lem_example =
    remove_singer_lem evening 7 31 none none true (session_of show) unique_keys (omega arith)

-- A rotation with the playing request in the second place, and a request from the portal, which
-- it does not show.
abbrev turned_show : List QueueRequest
turned_show =
    record playing_request { rotation_position = some 9 }
    ∷ waiting_request
    ∷ record later_request { rotation_position = none }
    ∷ []

abbrev first_entry : QueueEntry
first_entry = queue_entry (session_of turned_show).db 3 (some 1) 0 waiting_request

queue_data-wraps_example :
    first_entry.estimated_wait_seconds
    ≡ (length (rotation_view turned_show) + 0 - 1) * avg_song_seconds
      + (length turned_show - length (rotation_view turned_show)) * avg_song_seconds
unfolding queue_data playing_index rotation_view
queue_data-wraps_example =
    queue_data-wraps (session_of turned_show).db turned_show 1 0 first_entry refl (omega arith) refl
