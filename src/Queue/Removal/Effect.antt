-- ===== src/Queue/Removal/Effect.antt =====
-- After a singer is removed no active request of theirs is left, and one open removal stands
-- (app/core/queue_service.py, `remove_singer_from_rotation`).
use scales_infrastructure.Prelude.{
  ℕ, ◌≤◌, ◌≡◌, refl, ap, ◌∙◌, Bool, true, false, Option, List, [], ◌∷◌, ◌++◌, map, inl, inr,
  Bool-cases, ◌==◌, count, count-append, count-update_where_same, count-update_where_le, select,
  any_of, update_where, if◌then◌else◌, All, All-imp, All-imp_both, arith,
}
use scales_infrastructure.Models.Tables.{QueueRequest, SingerRemoval, Tables}
use scales_infrastructure.Models.Session.{Clock, Session, ok, ◌>>=◌, ◌>>◌, pure}
use scales_infrastructure.Models.Session.Preserves.{Preserves, preserves_rules}
use scales_infrastructure.Models.Session.Uncommitted.{Uncommitted, uncommitted_rules}
use scales_infrastructure.Queue.Broadcast.Durability.{broadcast_queue_state-Uncommitted}
use scales_infrastructure.Queue.Rows.{has_id, id_in, playing_at}
use scales_infrastructure.Queue.Broadcast.{broadcast_queue_state}
use scales_infrastructure.Queue.Playing.{IsSound}
use scales_infrastructure.Queue.Playing.Steps.{broadcast_queue_state-IsSound}
use scales_infrastructure.Queue.Removal.{
  active_of, removed_row, deleted_row, open_removal, new_removal, add_removal, record_removal,
  write_rows, remove_singer_from_rotation,
}

module _ (v : ℕ) where
  write_rows-IsSound :
      (p : QueueRequest → Bool) (f : QueueRequest → QueueRequest)
      → ((r : QueueRequest) → (f r).id ≡ r.id)
      → ((r : QueueRequest) → playing_at v (f r) ≡ true → playing_at v r ≡ true)
      → Preserves (IsSound v) (write_rows p f)
  unfolding ◌>>=◌
  write_rows-IsSound p f same_id quiet = record {
    run = λ s h. record {
      ids = λ k.
          rw (count-update_where_same (has_id k) p f (λ r. rw (same_id r)) s.db.queue_requests)
            (h.ids k);
      single =
          omega
            (arith, count-update_where_le (playing_at v) p f quiet s.db.queue_requests, h.single);
    };
  }

  removed_write :
      (c : Clock) (p : QueueRequest → Bool)
      → Preserves (IsSound v) (write_rows p (removed_row c.now))
  removed_write c p =
      write_rows-IsSound p (removed_row c.now) (λ r. refl) (λ r h. absurd (ground arith))

  deleted_write :
      (c : Clock) (p : QueueRequest → Bool)
      → Preserves (IsSound v) (write_rows p (deleted_row c.now))
  deleted_write c p =
      write_rows-IsSound p (deleted_row c.now) (λ r. refl) (λ r h. absurd (ground arith))

  add_removal-IsSound : (m : SingerRemoval) → Preserves (IsSound v) (add_removal m)
  unfolding ◌>>=◌
  add_removal-IsSound m = record { run = λ s h. record { ids = h.ids; single = h.single } }

  record_removal-IsSound :
      (c : Clock) (singer : ℕ) (account device : Option ℕ)
      → Preserves (IsSound v) (record_removal c v singer account device)
  unfolding record_removal
  record_removal-IsSound c singer account device = search (preserves_rules, add_removal-IsSound)

  pub remove_singer-IsSound :
      (c : Clock) (singer : ℕ) (account device : Option ℕ) (broadcast : Bool)
      → Preserves (IsSound v) (remove_singer_from_rotation c v singer account device broadcast)
  unfolding remove_singer_from_rotation
  remove_singer-IsSound c singer account device broadcast =
      search
        (
          preserves_rules, removed_write, deleted_write, record_removal-IsSound,
          broadcast_queue_state-IsSound,
        )
        depth 20

update-twice :
    (p q : QueueRequest → Bool) (now : ℕ) (rows : List QueueRequest)
    → ((r : QueueRequest) → q (removed_row now r) ≡ q r)
    → All (λ r. q r ≡ p r) rows
    → update_where q (deleted_row now) (update_where p (removed_row now) rows)
      ≡ update_where p (λ r. deleted_row now (removed_row now r)) rows
update-twice p q now [] same_key h = refl
update-twice p q now (r ∷ rows) same_key h = elim (Bool-cases (p r)) [
  | inl hit ↦ rw (hit, same_key r, h.0, hit, update-twice p q now rows same_key h.1)
  | inr miss ↦ rw (miss, h.0, miss, update-twice p q now rows same_key h.1)
]

abbrev ids_where : (QueueRequest → Bool) → List QueueRequest → List ℕ
ids_where p rows = map (λ (r : QueueRequest). r.id) (select p rows)

-- A key that no row has is not collected, and no row has it.
absent :
    (p : QueueRequest → Bool) (k : ℕ) (rows : List QueueRequest)
    → count (has_id k) rows ≡ 0
    → (any_of (λ j. k == j) (ids_where p rows) ≡ false) × All (λ r. (r.id == k) ≡ false) rows
absent p k [] h = (refl, tt)
absent p k (r ∷ rows) h = ground (arith, absent p k rows)

-- With unique keys the collected keys single out exactly the selected rows.
collected :
    (p : QueueRequest → Bool) (rows : List QueueRequest)
    → ((k : ℕ) → count (has_id k) rows ≤ 1)
    → All (λ r. id_in (ids_where p rows) r ≡ p r) rows
collected p [] h = tt
collected p (r ∷ rows) h =
    let gone = absent p r.id rows (ground (arith, h r.id)) in
    let rest = collected p rows (λ k. ground (arith, h k)) in
    elim (Bool-cases (p r)) [
      | inl hit ↦ (ground arith, All-imp_both _ _ _ (λ q a b. ground arith) rows gone.1 rest)
      | inr miss ↦ (ground (arith, gone.0), All-imp _ _ (λ q b. ground arith) rows rest)
    ]

appended :
    (c : Clock) (v singer : ℕ) (account device : Option ℕ) (rows : List SingerRemoval)
    → count (open_removal v singer) rows ≡ 0
    → count (open_removal v singer) (rows ++ new_removal c.now v singer account device ∷ []) ≡ 1
appended c v singer account device rows h =
    count-append (open_removal v singer) rows (new_removal c.now v singer account device ∷ [])
    ∙ ground arith

-- The open removals after `record_removal`: one, if there was one at most.
record_removal-one :
    (c : Clock) (v singer : ℕ) (account device : Option ℕ) (s : Session)
    → count (open_removal v singer) s.db.singer_removals ≤ 1
    → let (r, s') = record_removal c v singer account device s in
      (r ≡ ok tt)
      × (count (open_removal v singer) s'.db.singer_removals ≡ 1)
      × (s'.db.queue_requests ≡ s.db.queue_requests)
unfolding record_removal ◌>>=◌
record_removal-one c v singer account device s h =
    elim (Bool-cases (count (open_removal v singer) s.db.singer_removals == 0)) [
      | inl fresh ↦
          let nothing : count (open_removal v singer) s.db.singer_removals ≡ 0 = ground arith in
          rw nothing (refl, appended c v singer account device s.db.singer_removals nothing, refl)
      | inr known ↦
          let one : count (open_removal v singer) s.db.singer_removals ≡ 1 = ground arith in
          rw one (refl, one, refl)
    ]

closing :
    (c : Clock) (v : ℕ) (broadcast : Bool) (ids : List ℕ)
    → Uncommitted ((if broadcast then broadcast_queue_state c v else pure tt) >> pure ids)
closing c v broadcast ids = search (uncommitted_rules, broadcast_queue_state-Uncommitted)

-- Removing a singer rejects and deletes exactly their active requests at the venue, every other
-- row staying as it was, and leaves exactly one removal open, durably. Keys are to be unique,
-- and one removal at most open before.
pub remove_singer_lem :
    (c : Clock) (v singer : ℕ) (account device : Option ℕ) (broadcast : Bool) (s : Session)
    → ((k : ℕ) → count (has_id k) s.db.queue_requests ≤ 1)
    → count (open_removal v singer) s.db.singer_removals ≤ 1
    → let t' = (remove_singer_from_rotation c v singer account device broadcast s).1.committed in
      (t'.queue_requests
        ≡ update_where
            (active_of v singer)
            (λ r. deleted_row c.now (removed_row c.now r))
            s.db.queue_requests)
      × (count (open_removal v singer) t'.singer_removals ≡ 1)
unfolding remove_singer_from_rotation ◌>>=◌
remove_singer_lem c v singer account device broadcast s unique once =
    let s' = record s {
      db = record s.db {
        queue_requests = update_where (active_of v singer) (removed_row c.now) s.db.queue_requests;
      };
    } in
    let recorded = record_removal-one c v singer account device s' once in
    let ends = λ (m : Session).
      (closing c v broadcast (ids_where (active_of v singer) s.db.queue_requests)).run m in
    rw recorded.0 (
      ap (λ (t : Tables). t.queue_requests) (ends _)
          ∙ (rw recorded.2 (
              update-twice (active_of v singer)
                (id_in (ids_where (active_of v singer) s.db.queue_requests)) c.now
                s.db.queue_requests (λ r. refl)
                (collected (active_of v singer) s.db.queue_requests unique))),
      ap (λ (t : Tables). count (open_removal v singer) t.singer_removals) (ends _) ∙ recorded.1,
    )
