-- ===== src/Queue/Order.antt =====
-- The orders of the active queue (app/core/queue_service.py, `get_active_queue`,
-- `_order_by_mode`, `_interleave_by_singer`, `_singer_priority_weight`).
pub mod Fairness
pub mod Turns
use scales_infrastructure.Prelude.{
  ℕ, zero, suc, ◌+◌, ◌/◌, ℤ, pos, negsuc, leb_ℤ, Bool, true, false, Option, none, some, List, [],
  ◌∷◌, ◌++◌, map, get_or, length, select, sum_by, by_key, by_key_desc, lexi, sort, group_by,
}
use scales_infrastructure.Models.Tables.{Role, admin, owner, kj, QueueRequest, Singer, Tables}
use scales_infrastructure.Queue.Rows.{active_at, requested, singer_of}

-- The `mode` argument; any other text means round_robin.
pub data Mode : Type 0 where
  fifo vip_priority balanced round_robin : Mode

abbrev pub is_staff : Option Role → Bool
is_staff (some admin) = true
is_staff (some owner) = true
is_staff (some kj) = true
is_staff _ = false

abbrev staff_weight : Bool → Option ℕ → ℕ
staff_weight true tier = 100
staff_weight false (some tier) = 50
staff_weight false none = 0

abbrev weight_of : Option Singer → ℕ
weight_of none = 0
weight_of (some p) = staff_weight (is_staff p.role) p.loyalty_tier_id

-- `_singer_priority_weight`
pub priority_weight : List Singer → QueueRequest → ℕ
priority_weight singers r = weight_of (singer_of singers r.singer_id)

-- `perf_count // 25`, which rounds down.
abbrev floor_25 : ℤ → ℤ
floor_25 (pos n) = pos (n / 25)
floor_25 (negsuc n) = negsuc (n / 25)

-- The first part of `_balanced_key`.
pub activity : List Singer → QueueRequest → ℤ
activity singers r = elim (singer_of singers r.singer_id) [
  | none ↦ pos 0
  | some p ↦ floor_25 (get_or p.total_points (pos 0))
]

abbrev pub by_activity : List Singer → QueueRequest → QueueRequest → Bool
by_activity singers a b = leb_ℤ (activity singers a) (activity singers b)

-- One pass of the `for` loop over the iterators: what it appends, and what is left of those
-- iterators that were not exhausted.
pub round_of {ℓ} : {A : Type ℓ} → List (List A) → List A × List (List A)
round_of [] = ([], [])
round_of ([] ∷ its) = round_of its
round_of ((x ∷ it) ∷ its) = let (out, next) = round_of its in (x ∷ out, it ∷ next)

-- The `while group_iters` loop, with fuel for its passes.
pub rounds {ℓ} : {A : Type ℓ} → ℕ → List (List A) → List A
unfolding round_of
rounds zero its = []
rounds (suc fuel) [] = []
rounds (suc fuel) (it ∷ its) = let (out, next) = round_of (it ∷ its) in out ++ rounds fuel next

-- Passes that surely suffice: the elements and the iterators, each gone after some pass.
abbrev pub passes {ℓ} : {A : Type ℓ} → List (List A) → ℕ
passes its = sum_by (λ it. suc (length it)) its

abbrev pub first_requested : List QueueRequest → ℕ
first_requested [] = 0
first_requested (r ∷ g) = requested r

-- `ordered_groups`: each singer's requests by time, the singers by their first request.
pub ordered_groups : List QueueRequest → List (List QueueRequest)
ordered_groups items = sort (by_key first_requested) (
    map (λ (kg : Option ℕ × List QueueRequest). sort (by_key requested) kg.1)
      (group_by (λ (r : QueueRequest). r.singer_id) items))

-- `_interleave_by_singer`
pub interleave_by_singer : List QueueRequest → List QueueRequest
unfolding ordered_groups rounds
interleave_by_singer items = let gs = ordered_groups items in rounds (passes gs) gs

-- `_order_by_mode`
unfoldable pub order_by_mode : List Singer → Mode → List QueueRequest → List QueueRequest
unfolding interleave_by_singer priority_weight activity
order_by_mode singers fifo items = sort (by_key requested) items
order_by_mode singers vip_priority items =
    sort (lexi (by_key_desc (priority_weight singers)) (by_key requested)) items
order_by_mode singers balanced items = sort (lexi (by_activity singers) (by_key requested)) items
order_by_mode singers round_robin items = interleave_by_singer items

-- `get_active_queue`
unfoldable pub get_active_queue : ℕ → Mode → Tables → List QueueRequest
unfolding order_by_mode
get_active_queue v mode t = order_by_mode t.singers mode (select (active_at v) t.queue_requests)
