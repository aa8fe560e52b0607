-- ===== src/Queue/Reorder/Positions.antt =====
-- What reordering writes (app/core/queue_service.py, `reorder`, `reorder_by_singer`,
-- `skip_to_end`).
use scales_infrastructure.Prelude.{
  ℕ, suc, ◌+◌, ◌<◌, ◌≡◌, ◌≢◌, refl, ◌∙◌, Bool, true, false, Option, none, some, List, [], ◌∷◌, inl,
  inr, Bool-cases, find, any_of, select, update_where, count, count-update_where_same, zero, ap,
  All, All-imp, get_elem?, ◌==◌, get_or, arith,
}
use scales_infrastructure.Models.Tables.{QueueRequest}
use scales_infrastructure.Models.Session.{Clock, Session, err, unknown_ids, ◌>>=◌}
use scales_infrastructure.Models.Session.Preserves.{Preserves, preserves_rules}
use scales_infrastructure.Queue.Rows.{
  has_id, item_at, active_at, playing_at, is_skippable, get_item, write_row, reload,
}
use scales_infrastructure.Queue.Order.{Mode}
use scales_infrastructure.Queue.Playing.{IsSound}
use scales_infrastructure.Queue.Playing.Steps.{get_item-IsSound, reload-IsSound, write_row-IsSound}
use scales_infrastructure.Queue.Reorder.{
  place_row, set_positions, all_active, write_positions, reorder, reorder_by_singer, max_position,
  skip_to_end,
}

-- A count that does not look at positions is not moved by the loop.
count-set_positions :
    (q : QueueRequest → Bool) (now n : ℕ) (ids : List ℕ) (rows : List QueueRequest)
    → ((m : ℕ) (r : QueueRequest) → q (place_row now m r) ≡ q r)
    → count q (set_positions now n ids rows) ≡ count q rows
unfolding set_positions
count-set_positions q now n [] rows h = refl
count-set_positions q now n (k ∷ ids) rows h =
    count-set_positions q now (suc n) ids (update_where (has_id k) (place_row now n) rows) h
    ∙ count-update_where_same q (has_id k) (place_row now n) (h n) rows

module _ (v : ℕ) where
  write_positions-IsSound :
      (c : Clock) (ids : List ℕ) → Preserves (IsSound v) (write_positions c ids)
  unfolding ◌>>=◌
  write_positions-IsSound c ids = record {
    run = λ s h. record {
      ids = λ k.
          rw (count-set_positions (has_id k) c.now 1 ids s.db.queue_requests (λ m r. refl))
            (h.ids k);
      single =
          rw (count-set_positions (playing_at v) c.now 1 ids s.db.queue_requests (λ m r. refl))
            h.single;
    };
  }

  pub reorder-IsSound :
      (c : Clock) (ids : List ℕ) (mode : Mode) → Preserves (IsSound v) (reorder c v ids mode)
  unfolding reorder
  reorder-IsSound c [] mode = search preserves_rules
  reorder-IsSound c (k ∷ ids) mode = search (preserves_rules, write_positions-IsSound) depth 20

  pub reorder_by_singer-IsSound :
      (c : Clock) (sids : List ℕ) (mode : Mode)
      → Preserves (IsSound v) (reorder_by_singer c v sids mode)
  unfolding reorder_by_singer
  reorder_by_singer-IsSound c [] mode = search preserves_rules
  reorder_by_singer-IsSound c (k ∷ sids) mode =
      search (preserves_rules, write_positions-IsSound) depth 20

  place_write : (c : Clock) (rid n : ℕ) → Preserves (IsSound v) (write_row rid (place_row c.now n))
  place_write c rid n = write_row-IsSound v rid (place_row c.now n) (λ r. refl) (λ r h. h)

  pub skip_to_end-IsSound : (c : Clock) (rid : ℕ) → Preserves (IsSound v) (skip_to_end c v rid)
  unfolding skip_to_end
  skip_to_end-IsSound c rid =
      search (preserves_rules, get_item-IsSound, reload-IsSound, place_write) depth 20

-- The position that the row of a key holds.
abbrev pub position_of : ℕ → List QueueRequest → Option ℕ
position_of k rows = elim (find (has_id k) rows) [ none ↦ none | some r ↦ r.rotation_position ]

position_of-set_self :
    (now n k : ℕ) (rows : List QueueRequest)
    → any_of (has_id k) rows ≡ true
    → position_of k (update_where (has_id k) (place_row now n) rows) ≡ some n
position_of-set_self now n k [] h = cc
position_of-set_self now n k (r ∷ rows) h = ground (arith, position_of-set_self now n k rows)

position_of-set_ne :
    (now n k j : ℕ) (rows : List QueueRequest)
    → j ≢ k
    → position_of j (update_where (has_id k) (place_row now n) rows) ≡ position_of j rows
position_of-set_ne now n k j [] h = refl
position_of-set_ne now n k j (r ∷ rows) h = ground (arith, position_of-set_ne now n k j rows)

any_of-set :
    (now n k j : ℕ) (rows : List QueueRequest)
    → any_of (has_id j) (update_where (has_id k) (place_row now n) rows) ≡ any_of (has_id j) rows
any_of-set now n k j [] = refl
any_of-set now n k j (r ∷ rows) = ground (arith, any_of-set now n k j rows)

abbrev listed : ℕ → List ℕ → Bool
listed k ids = any_of (λ j. k == j) ids

-- No key stands twice in the list.
abbrev pub Distinct : List ℕ → Type 0
Distinct [] = Unit
Distinct (k ∷ ids) = (any_of (λ j. k == j) ids ≡ false) × Distinct ids

position_of-unlisted :
    (now n k : ℕ) (ids : List ℕ) (rows : List QueueRequest)
    → listed k ids ≡ false
    → position_of k (set_positions now n ids rows) ≡ position_of k rows
unfolding set_positions
position_of-unlisted now n k [] rows h = refl
position_of-unlisted now n k (j ∷ ids) rows h =
    position_of-unlisted now (suc n) k ids _ (ground arith)
    ∙ position_of-set_ne now n j k rows (λ e. ground arith)

get_elem?-listed : (ids : List ℕ) (i k : ℕ) → get_elem? ids i ≡ some k → listed k ids ≡ true
get_elem?-listed [] i k h = cc
get_elem?-listed (j ∷ ids) zero k h = ground arith
get_elem?-listed (j ∷ ids) (suc i) k h = ground (arith, get_elem?-listed ids i k)

abbrev PresentIn : List QueueRequest → List ℕ → Type 0
PresentIn rows ids = (k : ℕ) → listed k ids ≡ true → any_of (has_id k) rows ≡ true

position_of-set_positions :
    (now n : ℕ) (ids : List ℕ) (rows : List QueueRequest)
    → Distinct ids
    → PresentIn rows ids
    → (i k : ℕ) → get_elem? ids i ≡ some k
    → position_of k (set_positions now n ids rows) ≡ some (n + i)
unfolding set_positions
position_of-set_positions now n [] rows d e i k h = cc
position_of-set_positions now n (j ∷ ids) rows d e zero k h =
    let same_key : k ≡ j = ground arith in
    rw same_key (
      position_of-unlisted now (suc n) j ids _ d.0
      ∙ position_of-set_self now n j rows (e j (ground arith))
      ∙ ap some (omega arith))
position_of-set_positions now n (j ∷ ids) rows d e (suc i) k h =
    position_of-set_positions now (suc n) ids (update_where (has_id j) (place_row now n) rows) d.1
      (λ m hm. any_of-set now n j m rows ∙ e m (ground arith)) i k h
    ∙ ap some (omega arith)

any_of-select :
    (p q : QueueRequest → Bool) (rows : List QueueRequest)
    → any_of q (select p rows) ≡ true
    → any_of q rows ≡ true
any_of-select p q [] h = h
any_of-select p q (r ∷ rows) h = ground (arith, any_of-select p q rows)

all_active-present :
    (v : ℕ) (ids : List ℕ) (rows : List QueueRequest)
    → all_active v ids rows ≡ true
    → PresentIn rows ids
all_active-present v [] rows h k hk = cc
all_active-present v (j ∷ ids) rows h k hk = elim (Bool-cases (k == j)) [
  | inl first ↦
      let same_key : k ≡ j = ground arith in
      rw same_key (any_of-select (active_at v) (has_id j) rows (ground arith))
  | inr later ↦ all_active-present v ids rows (ground arith) k (ground arith)
]

-- A list of distinct keys of active requests becomes the order of the queue: the request at
-- place i of the list, counted from 0, gets the position i + 1, durably.
pub reorder-positions :
    (c : Clock) (v : ℕ) (ids : List ℕ) (mode : Mode) (s : Session)
    → Distinct ids
    → all_active v ids s.db.queue_requests ≡ true
    → (i k : ℕ) → get_elem? ids i ≡ some k
    → position_of k (reorder c v ids mode s).1.committed.queue_requests ≡ some (1 + i)
unfolding reorder ◌>>=◌
reorder-positions c v [] mode s d known i k h = cc
reorder-positions c v (j ∷ ids) mode s d known i k h = rw known (
    position_of-set_positions c.now 1 (j ∷ ids) s.db.queue_requests d
      (all_active-present v (j ∷ ids) s.db.queue_requests known) i k h)

-- A key that is not of an active request of the venue refuses the whole order, and nothing is
-- written.
pub reorder_refused :
    (c : Clock) (v : ℕ) (ids : List ℕ) (mode : Mode) (s : Session)
    → all_active v ids s.db.queue_requests ≡ false
    → reorder c v ids mode s ≡ (err unknown_ids, s)
unfolding reorder ◌>>=◌
reorder_refused c v [] mode s h = cc
reorder_refused c v (k ∷ ids) mode s h = rw h

max_position-lt :
    (rows : List QueueRequest)
    → All (λ r. get_or r.rotation_position 0 < max_position rows + 1) rows
max_position-lt [] = tt
max_position-lt (r ∷ rows) =
    (omega arith, All-imp _ _ (λ q h. omega arith) rows (max_position-lt rows))

any_of-found :
    (v k : ℕ) (rows : List QueueRequest) {r : QueueRequest}
    → find (item_at v k) rows ≡ some r
    → any_of (has_id k) rows ≡ true
any_of-found v k [] h = cc
any_of-found v k (q ∷ rows) {r} h = ground (arith, any_of-found v k rows {r = r})

-- `skip_to_end` of a request that may be skipped gives it, durably, a position past that of every
-- active request of the venue.
pub skip_to_end-last :
    (c : Clock) (v rid : ℕ) (s : Session) {item : QueueRequest}
    → find (item_at v rid) s.db.queue_requests ≡ some item
    → is_skippable item.status ≡ true
    → let active = select (active_at v) s.db.queue_requests in
      (position_of rid (skip_to_end c v rid s).1.committed.queue_requests
        ≡ some (max_position active + 1))
      × All (λ r. get_or r.rotation_position 0 < max_position active + 1) active
unfolding skip_to_end get_item write_row reload ◌>>=◌
skip_to_end-last c v rid s found allowed = rw found (
    rw allowed (
      position_of-set_self c.now _ rid s.db.queue_requests (any_of-found v rid _ found),
      max_position-lt _,
    ))
