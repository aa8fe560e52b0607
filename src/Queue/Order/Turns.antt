-- ===== src/Queue/Order/Turns.antt =====
-- Round robin takes the singers' songs in turn (app/core/queue_service.py, `_interleave_by_singer`).
use scales_infrastructure.Prelude.{
  ℕ, ◌<◌, ◌≡◌, refl, ap, ◌∙◌, Bool, true, Option, List, [], ◌∷◌, map, length, length-sort, any_of,
  same, same→eq, if◌then◌else◌, count, count-sort, by_key, sort, All, All-sort, IsSorted,
  sort-IsSorted, by_key-IsTotalPreorder, group_by, keys_count, IsKeyed, keys_count-group_by,
  group_onto-IsKeyed, arith,
}
use scales_infrastructure.Models.Tables.{QueueRequest}
use scales_infrastructure.Queue.Order.{
  passes, ordered_groups, first_requested, requested, interleave_by_singer,
}
use scales_infrastructure.Queue.Order.Fairness.{
  total_count, total_count-ordered_groups, in_turn, rounds-eq-in_turn,
}

abbrev pub singer_is : Option ℕ → QueueRequest → Bool
singer_is k r = same r.singer_id k

-- A turn of one singer: some requests, all of them theirs, by time.
abbrev pub IsTurn : List QueueRequest → Type 0
IsTurn g =
    (0 < length g)
    × ((k : Option ℕ) × All (λ r. singer_is k r ≡ true) g)
    × IsSorted (by_key requested) g

-- The lists hold the requests, each once; each list is of one singer and by time, each singer who has
-- a request has one list, and the lists are in the order of their first requests.
pub record AreTurns (items : List QueueRequest) (gs : List (List QueueRequest)) : Type 0 where
  pub kept : (p : QueueRequest → Bool) → total_count p gs ≡ count p items
  pub turns : All IsTurn gs
  pub one_each :
      (k : Option ℕ)
      → count (λ g. any_of (singer_is k) g) gs ≡ (if any_of (singer_is k) items then 1 else 0)
  pub by_first : IsSorted (by_key first_requested) gs

abbrev singer_key : QueueRequest → Option ℕ
singer_key r = r.singer_id

any_of_own :
    (k j : Option ℕ) (l : List QueueRequest)
    → All (λ r. singer_is j r ≡ true) l
    → any_of (singer_is k) l ≡ true
    → same j k ≡ true
any_of_own k j [] own h = absurd (ground (arith, h))
any_of_own k j (r ∷ l) own h =
    let same_key : r.singer_id ≡ j = same→eq r.singer_id j own.0 in
    let here : singer_is k r ≡ same j k = ap (λ o. same o k) same_key in
    ground (arith, h, here, any_of_own k j l own.1)

-- A singer's list has a request of a singer if and only if they are the same.
any_of_turn :
    (k j : Option ℕ) (l : List QueueRequest)
    → All (λ r. singer_is j r ≡ true) l
    → 0 < length l
    → any_of (singer_is k) l ≡ same j k
any_of_turn k j [] own lt = absurd (omega (arith, lt))
any_of_turn k j (r ∷ l) own lt =
    let same_key : r.singer_id ≡ j = same→eq r.singer_id j own.0 in
    let here : singer_is k r ≡ same j k = ap (λ o. same o k) same_key in
    ground (arith, here, any_of_own k j l own.1)

abbrev sorted_groups : List (Option ℕ × List QueueRequest) → List (List QueueRequest)
sorted_groups = map (λ (kg : Option ℕ × List QueueRequest). sort (by_key requested) kg.1)

sorted-own :
    (k : Option ℕ) (g : List QueueRequest)
    → All (λ r. same (singer_key r) k ≡ true) g
    → All (λ r. singer_is k r ≡ true) (sort (by_key requested) g)
sorted-own k g own = All-sort (by_key requested) (λ r. singer_is k r ≡ true) g own

sorted-some : (g : List QueueRequest) → 0 < length g → 0 < length (sort (by_key requested) g)
sorted-some g h = omega (arith, h, length-sort (by_key requested) g)

sorted_groups-turns :
    (gs : List (Option ℕ × List QueueRequest))
    → IsKeyed singer_key gs
    → All IsTurn (sorted_groups gs)
sorted_groups-turns [] h = tt
sorted_groups-turns ((k, g) ∷ gs) h = (
  (
    sorted-some g h.1,
    (k, sorted-own k g h.0),
    sort-IsSorted (by_key requested) (by_key-IsTotalPreorder requested) g,
  ),
  sorted_groups-turns gs h.2,
)

count-sorted_groups :
    (k : Option ℕ) (gs : List (Option ℕ × List QueueRequest))
    → IsKeyed singer_key gs
    → count (λ g. any_of (singer_is k) g) (sorted_groups gs) ≡ keys_count k gs
count-sorted_groups k [] h = refl
count-sorted_groups k ((j, g) ∷ gs) h =
    rw (any_of_turn k j (sort (by_key requested) g) (sorted-own j g h.0) (sorted-some g h.1))
      (omega (arith, count-sorted_groups k gs h.2))

ordered_groups-AreTurns : (items : List QueueRequest) → AreTurns items (ordered_groups items)
unfolding ordered_groups
ordered_groups-AreTurns items =
    let gs = group_by singer_key items in
    let keyed = group_onto-IsKeyed singer_key [] items tt in
    record {
      kept = λ p. total_count-ordered_groups p items;
      turns =
          All-sort (by_key first_requested) IsTurn (sorted_groups gs)
            (sorted_groups-turns gs keyed);
      one_each = λ k.
          count-sort (by_key first_requested) (λ g. any_of (singer_is k) g) (sorted_groups gs)
          ∙ count-sorted_groups k gs keyed
          ∙ keys_count-group_by singer_key k items;
      by_first =
          sort-IsSorted (by_key first_requested) (by_key-IsTotalPreorder first_requested)
            (sorted_groups gs);
    }

-- Round robin is fair. Every request belongs to one list, that of its singer, who has no other; the
-- lists are by time, and among each other by their first requests. The order takes the first request
-- of each list, in the order of the lists, then the second of each that has one, and so on.
pub interleave_in_turn :
    (items : List QueueRequest)
    → AreTurns items (ordered_groups items)
      × (interleave_by_singer items
          ≡ in_turn (passes (ordered_groups items)) 0 (ordered_groups items))
unfolding interleave_by_singer
interleave_in_turn items = (
  ordered_groups-AreTurns items,
  rounds-eq-in_turn (passes (ordered_groups items)) (ordered_groups items),
)
