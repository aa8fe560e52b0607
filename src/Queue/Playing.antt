-- ===== src/Queue/Playing.antt =====
-- At most one request of a venue plays: the queries and writes of app/core/queue_service.py that
-- bear on it, and the invariant of the tables.
pub mod Steps
use scales_infrastructure.Prelude.{
  ℕ, suc, ◌+◌, ◌≤◌, ◌≡◌, refl, sym, ◌∙◌, Bool, true, false, not, ◌&&◌, ◌||◌, Option, none, some,
  List, [], ◌∷◌, map, inl, inr, Bool-cases, length, length-select, length-sort, first, drop, select,
  count, All, All-imp, count-le-length, count-sort, count-update_where_same, count-update_where_le,
  count-update_where_add, any_of, update_where, sort, arith, if◌then◌else◌,
}
use scales_infrastructure.Models.Tables.{pending, QueueRequest, Tables}
use scales_infrastructure.Queue.Rows.{
  has_id, id_in, playing_at, now_playing_row, latest_first, stale_ids, dedupe_rows,
}
use scales_infrastructure.Queue.Broadcast.{start_row}

-- Primary keys are unique, and the venue has at most one row that plays.
pub record IsSound (v : ℕ) (t : Tables) : Type 0 where
  pub ids : (k : ℕ) → count (has_id k) t.queue_requests ≤ 1
  pub single : count (playing_at v) t.queue_requests ≤ 1

first-none : (rows : List QueueRequest) → first rows ≡ none → length rows ≡ 0
first-none [] h = refl
first-none (r ∷ rows) h = absurd (ground arith)

-- The query for the playing row finds nothing only if no row plays.
pub now_playing_row-none :
    (v : ℕ) (rows : List QueueRequest)
    → now_playing_row v rows ≡ none
    → count (playing_at v) rows ≡ 0
unfolding now_playing_row
now_playing_row-none v rows h =
    let playing = select (playing_at v) rows in
    sym (length-select (playing_at v) rows)
    ∙ sym (length-sort latest_first playing)
    ∙ first-none (sort latest_first playing) h

abbrev kept : List ℕ → QueueRequest → Bool
kept ids r = not (id_in ids r)

abbrev ids_of : List QueueRequest → List ℕ
ids_of rows = map (λ (r : QueueRequest). r.id) rows

ids_of_self : (rows : List QueueRequest) → All (λ r. id_in (ids_of rows) r ≡ true) rows
ids_of_self [] = tt
ids_of_self (r ∷ rows) = (ground arith, All-imp _ _ (λ q h. ground arith) rows (ids_of_self rows))

count-kept :
    (ids : List ℕ) (rows : List QueueRequest)
    → All (λ r. id_in ids r ≡ true) rows
    → count (kept ids) rows ≡ 0
count-kept ids [] h = refl
count-kept ids (r ∷ rows) h = ground (arith, count-kept ids rows h.1)

count-demoted :
    (now v : ℕ) (ids : List ℕ) (rows : List QueueRequest)
    → count
        (playing_at v)
        (update_where (id_in ids) (λ r. record r { status = pending; updated_at = some now }) rows)
      ≡ count (kept ids) (select (playing_at v) rows)
count-demoted now v ids [] = refl
count-demoted now v ids (r ∷ rows) = elim (Bool-cases (id_in ids r)) [
  | inl hit ↦ rw hit (ground (arith, count-demoted now v ids rows))
  | inr miss ↦ rw miss (ground (arith, count-demoted now v ids rows))
]

count-kept_tail : (rows : List QueueRequest) → count (kept (ids_of (drop 1 rows))) rows ≤ 1
count-kept_tail [] = omega arith
count-kept_tail (r ∷ rows) = ground (arith, count-kept (ids_of rows) rows (ids_of_self rows))

-- After `_dedupe_now_playing` at most one row of the venue plays, however many did before.
pub dedupe_rows-single :
    (now v : ℕ) (rows : List QueueRequest) → count (playing_at v) (dedupe_rows now v rows) ≤ 1
unfolding dedupe_rows
dedupe_rows-single now v rows =
    let order = sort latest_first (select (playing_at v) rows) in
    rw
      (
        count-demoted now v (stale_ids v rows) rows,
        ← count-sort latest_first (kept (stale_ids v rows)) (select (playing_at v) rows),
      )
      (count-kept_tail order)

-- At another venue it starts nothing.
pub dedupe_rows-le :
    (now v w : ℕ) (rows : List QueueRequest)
    → count (playing_at w) (dedupe_rows now v rows) ≤ count (playing_at w) rows
unfolding dedupe_rows
dedupe_rows-le now v w rows =
    count-update_where_le (playing_at w) (id_in (stale_ids v rows)) _ (λ r h. absurd (ground arith))
      rows

pub dedupe_rows-ids :
    (now v k : ℕ) (rows : List QueueRequest)
    → count (has_id k) (dedupe_rows now v rows) ≡ count (has_id k) rows
unfolding dedupe_rows
dedupe_rows-ids now v k rows =
    count-update_where_same (has_id k) (id_in (stale_ids v rows)) _ (λ r. refl) rows

-- Starting the row of one key, where nothing plays, leaves one row at most.
pub start_row-single :
    (now v rid : ℕ) (rows : List QueueRequest)
    → count (playing_at v) rows ≡ 0
    → count (has_id rid) rows ≤ 1
    → count (playing_at v) (update_where (has_id rid) (start_row now) rows) ≤ 1
start_row-single now v rid rows quiet once =
    omega (arith, count-update_where_add (playing_at v) (has_id rid) (start_row now) rows)
