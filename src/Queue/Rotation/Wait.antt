-- ===== src/Queue/Rotation/Wait.antt =====
-- The estimated waits of the rotation that is shown (app/core/queue_service.py, the loop of
-- `broadcast_queue_state`).
use scales_infrastructure.Prelude.{
  ℕ, zero, suc, ◌+◌, ◌-◌, ◌*◌, ◌≤◌, ◌<◌, ◌≡◌, refl, ◌∙◌, ap, sym, Bool, true, false, Option, none,
  some, List, [], ◌∷◌, get_elem?, length, count, select, length-sort, sort, group_by, concat_groups,
  count-group_by, length-append, Bool-cases, Option-cases, inl, inr, arith,
}
use scales_infrastructure.Models.Tables.{QueueRequest, Tables}
use scales_infrastructure.Models.Events.{QueueEntry}
use scales_infrastructure.Queue.Rows.{is_now_playing}
use scales_infrastructure.Queue.Rotation.{
  in_rotation, by_priority, leaders, by_place, rotation_view, playing_index, est_wait, queue_entry,
  entries_from, queue_data, avg_song_seconds,
}

length-leader :
    (l rest : List QueueRequest)
    → length (elim l [ [] ↦ rest | r ∷ _ ↦ r ∷ rest ]) ≤ length l + length rest
length-leader [] rest = omega arith
length-leader (r ∷ l) rest = omega arith

length-leaders :
    (gs : List (Option ℕ × List QueueRequest)) → length (leaders gs) ≤ length (concat_groups gs)
unfolding leaders
length-leaders [] = omega arith
length-leaders ((k, g) ∷ gs) = omega (
  arith,
  length-leader (sort by_priority g) (leaders gs),
  length-sort by_priority g,
  length-append g (concat_groups gs),
  length-leaders gs,
)

module _ {A : Type 0} where
  count_all : (xs : List A) → count (λ x. true) xs ≡ length xs
  count_all [] = refl
  count_all (x ∷ xs) = omega (arith, count_all xs)

  length-select : (p : A → Bool) (xs : List A) → length (select p xs) ≤ length xs
  length-select p [] = omega arith
  length-select p (x ∷ xs) = ground (arith, length-select p xs)

-- The rotation shows at most as many rows as there are active requests.
pub length-rotation_view : (items : List QueueRequest) → length (rotation_view items) ≤ length items
unfolding rotation_view
length-rotation_view items =
    let placed = select in_rotation items in
    let gs = group_by (λ (r : QueueRequest). r.singer_id) placed in
    omega (
      arith,
      length-sort by_place (leaders gs),
      length-leaders gs,
      count_all (concat_groups gs),
      count-group_by (λ x. true) (λ (r : QueueRequest). r.singer_id) placed,
      count_all placed,
      length-select in_rotation items,
    )

-- Where the first row does not play, the one that plays is found among the others.
playing_index-later :
    (r : QueueRequest) (rows : List QueueRequest) (n : ℕ)
    → is_now_playing r.status ≡ false
    → playing_index (r ∷ rows) ≡ some n
    → (m : ℕ) × (playing_index rows ≡ some m) × (n ≡ suc m)
unfolding playing_index
playing_index-later r rows n miss h = elim (Option-cases (playing_index rows)) [
  | inl nobody ↦ absurd (ground (arith, miss, nobody, h))
  | inr (m, found) ↦ (m, found, ground (arith, miss, found, h))
]

playing_index-here :
    (r : QueueRequest) (rows : List QueueRequest) (n : ℕ)
    → is_now_playing r.status ≡ true
    → playing_index (r ∷ rows) ≡ some n
    → n ≡ 0
unfolding playing_index
playing_index-here r rows n hit h = ground (arith, hit, h)

playing_index-below :
    (rows : List QueueRequest) (n : ℕ) → playing_index rows ≡ some n → n < length rows
unfolding playing_index
playing_index-below [] n h = absurd (ground (arith, h))
playing_index-below (r ∷ rows) n h = elim (Bool-cases (is_now_playing r.status)) [
  | inl hit ↦ omega (arith, playing_index-here r rows n hit h)
  | inr miss ↦
      let (m, found, next) = playing_index-later r rows n miss h in
      omega (arith, next, playing_index-below rows m found)
]

up : (k : ℕ) → k ≡ k + 0
up k = omega arith

over : (k j : ℕ) → suc k + j ≡ k + suc j
over k j = omega arith

-- The row at place `i`, before the one that plays, has the wait of a row that does not play.
entry_wait :
    (t : Tables) (total n k : ℕ) (rows : List QueueRequest) (m i : ℕ) (e : QueueEntry)
    → playing_index rows ≡ some m
    → i < m
    → get_elem? (entries_from t total (some n) k rows) i ≡ some e
    → e.estimated_wait_seconds ≡ est_wait total (some n) false (k + i)
unfolding playing_index entries_from queue_entry
entry_wait t total n k [] m i e h lt at = absurd (ground (arith, h))
entry_wait t total n k (r ∷ rows) m i e h lt at = elim (Bool-cases (is_now_playing r.status)) [
  | inl hit ↦ absurd (omega (arith, playing_index-here r rows m hit h, lt))
  | inr miss ↦
      let (q, found, next) = playing_index-later r rows m miss h in
      go i lt at miss next (λ j below. entry_wait t total n (suc k) rows q j e found below)
]
  where
    wait_of : Option QueueEntry → ℕ
    wait_of none = 0
    wait_of (some x) = x.estimated_wait_seconds

    go :
        (j : ℕ)
        → j < m
        → get_elem? (entries_from t total (some n) k (r ∷ rows)) j ≡ some e
        → is_now_playing r.status ≡ false
        → {q : ℕ} → m ≡ suc q
        → ((j' : ℕ)
            → j' < q
            → get_elem? (entries_from t total (some n) (suc k) rows) j' ≡ some e
            → e.estimated_wait_seconds ≡ est_wait total (some n) false (suc k + j'))
        → e.estimated_wait_seconds ≡ est_wait total (some n) false (k + j)
    go zero below here miss next rest =
        ap wait_of (sym here)
        ∙ ap (λ b. est_wait total (some n) b k) miss
        ∙ ap (λ p. est_wait total (some n) false p) (up k)
    go (suc j) below here miss next rest =
        rest j (omega (arith, below, next)) here
        ∙ ap (λ p. est_wait total (some n) false p) (over k j)

-- The wait that is shown for a row before the one that plays, which is at place `n`, is that of the
-- songs round the end of the rotation, and 280 seconds more for each active request that the rotation
-- does not show.
pub queue_data-wraps :
    (t : Tables) (items : List QueueRequest) (n i : ℕ) (e : QueueEntry)
    → playing_index (rotation_view items) ≡ some n
    → i < n
    → get_elem? (queue_data t items) i ≡ some e
    → let size : ℕ = length (rotation_view items) in
      e.estimated_wait_seconds
      ≡ (size + i - n) * avg_song_seconds + (length items - size) * avg_song_seconds
unfolding queue_data est_wait
queue_data-wraps t items n i e plays before shown =
    let size = length (rotation_view items) in
    entry_wait t (length items) n 0 (rotation_view items) n i e plays before (
      ap (λ o. get_elem? (entries_from t (length items) o 0 (rotation_view items)) i) (sym plays)
      ∙ shown)
    ∙ ground (
      arith,
      before,
      length-rotation_view items,
      playing_index-below (rotation_view items) n plays,
    )
