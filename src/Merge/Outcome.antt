-- ===== src/Merge/Outcome.antt =====
-- What a merge leaves of the local singer, and what the target gains (app/services/singer_merge.py).
use scales_infrastructure.Prelude.{
  ℕ, ℤ, pos, ◌+ℤ◌, int_laws, ◌≡◌, ◌≢◌, refl, sym, subst, ◌∙◌, ap, Bool, true, false, Option, none,
  some, List, [], ◌∷◌, ◌==◌, find, get_or, update_where, Bool-cases, inl, inr, if◌then◌else◌, arith,
}
use scales_infrastructure.Models.Tables.{PointsEntry, Singer, Tables}
use scales_infrastructure.Models.Session.{Clock, Session, ok, ◌>>=◌}
use scales_infrastructure.Points.{sum_amounts}
use scales_infrastructure.Points.Ledger.{shown_total}
use scales_infrastructure.Merge.Rows.{Counts, points_of, to_points, counts, reassign}
use scales_infrastructure.Merge.{Request, leave_local, link_target, close_local, merge_into}
use scales_infrastructure.Merge.Moved.{IsClear, AllMoved, move_all, move_all-AllMoved}

-- Closing the local singer's row touches none of these tables.
close_local-AllMoved :
    (iso now v source target : ℕ) (q : Request) (moved : Counts) (before after : Tables)
    → AllMoved v source target before after
    → AllMoved v source target before (close_local iso now v source target q moved after)
close_local-AllMoved iso now v source target q moved before after m = record {
  queue_requests = m.queue_requests;
  rotation_entries = m.rotation_entries;
  check_in_sessions = m.check_in_sessions;
  payments = m.payments;
  orders = m.orders;
  loyalty_points = m.loyalty_points;
  loyalty_quest_completions = m.loyalty_quest_completions;
  points_ledger = m.points_ledger;
  singer_achievements = m.singer_achievements;
  leaderboard_entries = m.leaderboard_entries;
  device_tokens = m.device_tokens;
  notification_settings = m.notification_settings;
  notifications = m.notifications;
  share_events = m.share_events;
  favorites = m.favorites;
  follows = m.follows;
  followed = m.followed;
}

module _ (c : Clock) (v : ℕ) (s : Session) where
  reassign-clear :
      (source target : ℕ)
      → IsClear v source target s.db
      → reassign c.now v source target s
        ≡ (ok (counts v source s.db), record s { db = move_all c.now v source target s.db })
  unfolding reassign ◌>>=◌ move_all
  reassign-clear source target clear =
      rw (clear.achievements, clear.tokens, clear.settings, clear.followers, clear.followees) refl

  merge_into-clear :
      (q : Request) (source target : Singer)
      → source.id ≢ target.id
      → IsClear v source.id target.id s.db
      → (merge_into c v q source target s).1.db
        ≡ close_local c.iso_now c.now v source.id target.id q
            (counts v source.id s.db)
            (move_all c.now v source.id target.id s.db)
  unfolding merge_into ◌>>=◌
  merge_into-clear q source target apart clear =
      rw (different, reassign-clear source.id target.id clear) refl
    where
      different : (target.id == source.id) ≡ false
      different = ground arith

-- Merging a local singer into another moves every row of theirs at the venue, in fourteen tables,
-- each row to the target and none elsewhere, and leaves them no favourite and no follow. The two
-- are different, and no two rows of theirs become alike.
pub merge_into-AllMoved :
    (c : Clock) (v : ℕ) (q : Request) (source target : Singer) (s : Session)
    → source.id ≢ target.id
    → IsClear v source.id target.id s.db
    → AllMoved v source.id target.id s.db (merge_into c v q source target s).1.db
merge_into-AllMoved c v q source target s apart clear =
    subst (λ t. AllMoved v source.id target.id s.db t)
      (sym (merge_into-clear c v s q source target apart clear))
      (close_local-AllMoved c.iso_now c.now v source.id target.id q (counts v source.id s.db) s.db _
        (move_all-AllMoved c.now v source.id target.id apart s.db))

module _ (p q : PointsEntry → Bool) (f : PointsEntry → PointsEntry)
    (arrives : (x : PointsEntry) → p x ≡ true → q (f x) ≡ true)
    (apart : (x : PointsEntry) → p x ≡ true → q x ≡ false)
    (same : (x : PointsEntry) → (f x).amount ≡ x.amount) where
  sum_amounts-moved :
      (rows : List PointsEntry)
      → sum_amounts q (update_where p f rows) ≡ sum_amounts q rows +ℤ sum_amounts p rows
  unfolding sum_amounts
  sum_amounts-moved [] = omega int_laws
  sum_amounts-moved (x ∷ rows) = elim (Bool-cases (p x)) [
    | inl hit ↦
        rw (hit, arrives x hit, apart x hit, same x, sum_amounts-moved rows) (omega int_laws)
    | inr miss ↦ rw (miss, sum_amounts-moved rows) (omega int_laws)
  ]

shown_total-cons :
    (k : ℕ) (a b : Singer) (xs ys : List Singer)
    → a.id ≡ b.id
    → a.total_points ≡ b.total_points
    → shown_total k xs ≡ shown_total k ys
    → shown_total k (a ∷ xs) ≡ shown_total k (b ∷ ys)
shown_total-cons k a b xs ys same_id same_total rest =
    go (a.id == k) (b.id == k) (ap (λ i. i == k) same_id)
  where
    shown : Option Singer → ℤ
    shown none = pos 0
    shown (some r) = get_or r.total_points (pos 0)

    go :
        (x y : Bool)
        → x ≡ y
        → shown (if x then some a else find (λ (r : Singer). r.id == k) xs)
          ≡ shown (if y then some b else find (λ (r : Singer). r.id == k) ys)
    go true true e = ap (λ t. get_or t (pos 0)) same_total
    go false false e = rest
    go true false e = absurd (ground arith)
    go false true e = absurd (ground arith)

module _ (p : Singer → Bool) (f : Singer → Singer) (keep_id : (r : Singer) → (f r).id ≡ r.id)
    (keep_total : (r : Singer) → (f r).total_points ≡ r.total_points) where
  shown_total-update :
      (k : ℕ) (rows : List Singer) → shown_total k (update_where p f rows) ≡ shown_total k rows
  shown_total-update k [] = refl
  shown_total-update k (r ∷ rows) =
      shown_total-cons k (if p r then f r else r) r (update_where p f rows) rows
        (ground (arith, keep_id r)) (ground (arith, keep_total r)) (shown_total-update k rows)

-- The points that the target's row shows stay as they were, while the ledger of the venue gives the
-- target the sum of the local singer's entries on top of their own. The two are different, and no
-- two rows of theirs become alike.
pub merge_into-shown_total :
    (c : Clock) (v : ℕ) (q : Request) (source target : Singer) (s : Session)
    → source.id ≢ target.id
    → IsClear v source.id target.id s.db
    → (let after = (merge_into c v q source target s).1.db in
        (shown_total target.id after.singers ≡ shown_total target.id s.db.singers)
        × (sum_amounts (points_of v target.id) after.points_ledger
            ≡ sum_amounts (points_of v target.id) s.db.points_ledger
              +ℤ sum_amounts (points_of v source.id) s.db.points_ledger))
unfolding move_all
merge_into-shown_total c v q source target s apart clear =
    rw (merge_into-clear c v s q source target apart clear) (
      shown_total-update (λ (r : Singer). r.id == target.id) (link_target c.iso_now source.id)
            (λ r. refl) (λ r. refl) target.id _
          ∙ shown_total-update (λ (r : Singer). r.id == source.id)
              (leave_local c.iso_now c.now target.id) (λ r. refl) (λ r. refl) target.id
              s.db.singers,
      sum_amounts-moved (points_of v source.id) (points_of v target.id) (to_points c.now target.id)
          (λ x. ground arith) (λ x. ground arith) (λ x. refl) s.db.points_ledger,
    )
