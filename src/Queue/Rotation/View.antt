-- ===== src/Queue/Rotation/View.antt =====
-- The rotation that is shown has one row for each singer who was placed
-- (app/core/queue_service.py, `_rotation_view`).
use scales_infrastructure.Prelude.{
  ℕ, ◌+◌, ◌<◌, ◌≡◌, refl, ◌∙◌, Bool, true, ◌&&◌, Option, List, [], ◌∷◌, same, same→eq,
  if◌then◌else◌, get_or, length, count, select, any_of, All, All-sort, length-sort, sort, IsSorted,
  sort-IsSorted, by_key-IsTotalPreorder, lexi-IsTotalPreorder, count-sort, group_by, keys_count,
  IsKeyed, keys_count-group_by, group_onto-IsKeyed, arith,
}
use scales_infrastructure.Models.Tables.{QueueRequest}
use scales_infrastructure.Queue.Rotation.{
  in_rotation, by_priority, leaders, by_place, rotation_view, status_priority,
}

abbrev singer_is : Option ℕ → QueueRequest → Bool
singer_is k r = same r.singer_id k

abbrev singer_key : QueueRequest → Option ℕ
singer_key r = r.singer_id

-- One group contributes its first row after the sort.
count-leader :
    (k j : Option ℕ) (l rest : List QueueRequest)
    → All (λ r. same r.singer_id j ≡ true) l
    → 0 < length l
    → count (singer_is k) (elim l [ [] ↦ rest | r ∷ _ ↦ r ∷ rest ])
      ≡ (if same j k then 1 else 0) + count (singer_is k) rest
count-leader k j [] rest hs lt = absurd (omega arith)
count-leader k j (r ∷ l) rest hs lt = rw (same→eq r.singer_id j hs.0)

count-leaders :
    (k : Option ℕ) (gs : List (Option ℕ × List QueueRequest))
    → IsKeyed singer_key gs
    → count (singer_is k) (leaders gs) ≡ keys_count k gs
unfolding leaders
count-leaders k [] h = refl
count-leaders k ((j, g) ∷ gs) h =
    count-leader k j (sort by_priority g) (leaders gs) (All-sort by_priority _ g h.0)
      (omega (arith, length-sort by_priority g, h.1))
    ∙ omega (arith, count-leaders k gs h.2)

any_of-select :
    (k : Option ℕ) (items : List QueueRequest)
    → any_of (singer_is k) (select in_rotation items)
      ≡ any_of (λ r. in_rotation r && singer_is k r) items
any_of-select k [] = refl
any_of-select k (r ∷ items) = ground (arith, any_of-select k items)

-- A singer has one row in the view if the KJ desktop placed some active request of theirs, and
-- none otherwise.
pub rotation_view_once :
    (k : Option ℕ) (items : List QueueRequest)
    → count (λ r. same r.singer_id k) (rotation_view items)
      ≡ (if any_of (λ r. in_rotation r && same r.singer_id k) items then 1 else 0)
unfolding rotation_view
rotation_view_once k items =
    let placed = select in_rotation items in
    rw (count-sort by_place (singer_is k) (leaders (group_by singer_key placed))) (
      rw (count-leaders k (group_by singer_key placed) (group_onto-IsKeyed singer_key [] placed tt))
        (rw (keys_count-group_by singer_key k placed) (rw (any_of-select k items))))

-- The view stands in the order of its positions, and of the statuses where these agree.
pub rotation_view-IsSorted : (items : List QueueRequest) → IsSorted by_place (rotation_view items)
unfolding rotation_view
rotation_view-IsSorted items =
    sort-IsSorted by_place
      (lexi-IsTotalPreorder _ _ (by_key-IsTotalPreorder (λ r. get_or r.rotation_position 0))
        (by_key-IsTotalPreorder (λ r. status_priority r.status)))
      (leaders (group_by singer_key (select in_rotation items)))
