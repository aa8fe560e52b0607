-- ===== src/Tests/OrderRuns.antt =====
-- Runs of the orders and of the rotation that is shown (app/core/queue_service.py), and of
-- what a broadcast leaves.
use scales_infrastructure.Prelude.{pos, ◌+ℤ◌, ◌≡◌, refl, none, some, [], ◌∷◌, count, same, IsSorted}
use scales_infrastructure.Models.Session.Uncommitted.{Uncommitted}
use scales_infrastructure.Queue.Order.{
  vip_priority, interleave_by_singer, order_by_mode, passes, ordered_groups, round_robin,
}
use scales_infrastructure.Queue.Order.Fairness.{
  in_turn, count-order_by_mode, mode_order, order_by_mode-IsSorted,
}
use scales_infrastructure.Queue.Order.Turns.{AreTurns, interleave_in_turn}
use scales_infrastructure.Queue.Rotation.{rotation_view}
use scales_infrastructure.Queue.Rotation.View.{rotation_view_once}
use scales_infrastructure.Queue.Broadcast.{broadcast_queue_state}
use scales_infrastructure.Queue.Broadcast.Durability.{broadcast_queue_state-Uncommitted}
use scales_infrastructure.Points.{add_points}
use scales_infrastructure.Points.Ledger.{shown_total, ledger_total, add_points-in_step}
use scales_infrastructure.Tests.Samples.{evening, singer_31, show, session_of}

interleave_in_turn_example :
    AreTurns show (ordered_groups show)
    × (interleave_by_singer show ≡ in_turn (passes (ordered_groups show)) 0 (ordered_groups show))
interleave_in_turn_example = interleave_in_turn show

count-order_by_mode_example :
    count (λ r. same r.singer_id (some 31)) (order_by_mode (singer_31 ∷ []) round_robin show) ≡ 2
count-order_by_mode_example =
    count-order_by_mode (λ r. same r.singer_id (some 31)) (singer_31 ∷ []) round_robin show

order_by_mode-IsSorted_example :
    IsSorted
      (mode_order (singer_31 ∷ []) vip_priority)
      (order_by_mode (singer_31 ∷ []) vip_priority show)
order_by_mode-IsSorted_example = order_by_mode-IsSorted (singer_31 ∷ []) vip_priority show

rotation_view_once_example : count (λ r. same r.singer_id (some 31)) (rotation_view show) ≡ 1
rotation_view_once_example = rotation_view_once (some 31) show

broadcast_queue_state-Uncommitted_example : Uncommitted (broadcast_queue_state evening 7)
broadcast_queue_state-Uncommitted_example = broadcast_queue_state-Uncommitted evening 7

add_points-in_step_example :
    let t' = (add_points evening 7 31 (pos 25) "Tip" none none (session_of show)).1.db in
    shown_total 31 t'.singers +ℤ ledger_total 31 []
    ≡ shown_total 31 (singer_31 ∷ []) +ℤ ledger_total 31 t'.points_ledger
add_points-in_step_example =
    add_points-in_step evening 7 31 (pos 25) "Tip" none none 31 (session_of show) {r = singer_31}
      refl
