-- ===== src/Queue/History.antt =====
-- Any sequence of the operations of app/core/queue_service.py on one venue's queue.
use scales_infrastructure.Prelude.{ℕ, Bool, Option, List, [], ◌∷◌, String}
use scales_infrastructure.Models.Session.{Clock, Session, Action, pure, ◌>>◌}
use scales_infrastructure.Models.Session.Preserves.{Preserves, Preserves-bind, Preserves-pure}
use scales_infrastructure.Queue.Order.{Mode}
use scales_infrastructure.Queue.Playing.{IsSound}
use scales_infrastructure.Queue.Playing.Steps.{broadcast_queue_state-IsSound}
use scales_infrastructure.Queue.Broadcast.{broadcast_queue_state}
use scales_infrastructure.Queue.Actions.{approve, reject, start, complete, skip, cancel, update}
use scales_infrastructure.Queue.Actions.Single.{
  approve-IsSound, reject-IsSound, start-IsSound, complete-IsSound, skip-IsSound, cancel-IsSound,
  update-IsSound,
}
use scales_infrastructure.Queue.Reorder.{reorder, reorder_by_singer, skip_to_end}
use scales_infrastructure.Queue.Reorder.Positions.{
  reorder-IsSound, reorder_by_singer-IsSound, skip_to_end-IsSound,
}
use scales_infrastructure.Queue.Removal.{remove_singer_from_rotation}
use scales_infrastructure.Queue.Removal.Effect.{remove_singer-IsSound}

-- A call of a public method, with its arguments.
pub data Call : Type 0 where
  approve_call start_call complete_call skip_call cancel_call skip_to_end_call : ℕ → Call
  reject_call update_call : ℕ → Option String → Option String → Call
  reorder_call reorder_by_singer_call : List ℕ → Mode → Call
  remove_singer_call : ℕ → Option ℕ → Option ℕ → Bool → Call
  broadcast_call : Call

abbrev ignore : {A : Type 0} → Action A → Action (Unit {0})
ignore m = m >> pure tt

pub perform : Clock → ℕ → Call → Action (Unit {0})
perform c v (approve_call rid) = ignore (approve c v rid)
perform c v (start_call rid) = ignore (start c v rid)
perform c v (complete_call rid) = ignore (complete c v rid)
perform c v (skip_call rid) = ignore (skip c v rid)
perform c v (cancel_call rid) = ignore (cancel c v rid)
perform c v (skip_to_end_call rid) = ignore (skip_to_end c v rid)
perform c v (reject_call rid reason by) = ignore (reject c v rid reason by)
perform c v (update_call rid notes name) = ignore (update c v rid notes name)
perform c v (reorder_call ids mode) = ignore (reorder c v ids mode)
perform c v (reorder_by_singer_call sids mode) = ignore (reorder_by_singer c v sids mode)
perform c v (remove_singer_call singer account device broadcast) =
    ignore (remove_singer_from_rotation c v singer account device broadcast)
perform c v broadcast_call = broadcast_queue_state c v

-- Calls one after another, each with its own reading of the clock; an exception ends the call.
pub perform_all : ℕ → List (Clock × Call) → Session → Session
perform_all v [] s = s
perform_all v ((c, call) ∷ calls) s = perform_all v calls (perform c v call s).1

ignore-IsSound :
    {A : Type 0} (v : ℕ) (m : Action A) → Preserves (IsSound v) m → Preserves (IsSound v) (ignore m)
ignore-IsSound v m k = Preserves-bind m (λ _. pure tt) k (λ a. Preserves-pure tt)

perform-IsSound : (c : Clock) (v : ℕ) (call : Call) → Preserves (IsSound v) (perform c v call)
unfolding perform
perform-IsSound c v (approve_call rid) = ignore-IsSound v _ (approve-IsSound v c rid)
perform-IsSound c v (start_call rid) = ignore-IsSound v _ (start-IsSound v c rid)
perform-IsSound c v (complete_call rid) = ignore-IsSound v _ (complete-IsSound v c rid)
perform-IsSound c v (skip_call rid) = ignore-IsSound v _ (skip-IsSound v c rid)
perform-IsSound c v (cancel_call rid) = ignore-IsSound v _ (cancel-IsSound v c rid)
perform-IsSound c v (skip_to_end_call rid) = ignore-IsSound v _ (skip_to_end-IsSound v c rid)
perform-IsSound c v (reject_call rid reason by) =
    ignore-IsSound v _ (reject-IsSound v c rid reason by)
perform-IsSound c v (update_call rid notes name) =
    ignore-IsSound v _ (update-IsSound v c rid notes name)
perform-IsSound c v (reorder_call ids mode) = ignore-IsSound v _ (reorder-IsSound v c ids mode)
perform-IsSound c v (reorder_by_singer_call sids mode) =
    ignore-IsSound v _ (reorder_by_singer-IsSound v c sids mode)
perform-IsSound c v (remove_singer_call singer account device broadcast) =
    ignore-IsSound v _ (remove_singer-IsSound v c singer account device broadcast)
perform-IsSound c v broadcast_call = broadcast_queue_state-IsSound v c

-- From a table with unique keys and at most one request of the venue playing, every sequence of
-- calls, failed ones included, leads to such a table.
pub perform_all-IsSound :
    (v : ℕ) (calls : List (Clock × Call)) (s : Session)
    → IsSound v s.db
    → IsSound v (perform_all v calls s).db
unfolding perform_all
perform_all-IsSound v [] s h = h
perform_all-IsSound v ((c, call) ∷ calls) s h =
    perform_all-IsSound v calls (perform c v call s).1 ((perform-IsSound c v call).run s h)
