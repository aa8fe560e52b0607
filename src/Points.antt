-- ===== src/Points.antt =====
-- app/core/points_service.py: the points ledger, totals over a period, and achievements.
-- `now` is the reading of the clock and `cutoff` the text of `now - timedelta(...)`.
pub mod Ledger
pub mod Frame
pub mod Achievements
use scales_infrastructure.Prelude.{
  ℕ, ℤ, pos, ◌+ℤ◌, eqb_ℤ, leb_ℤ, Bool, true, false, not, ◌&&◌, ◌||◌, Option, none, some, List, [],
  ◌∷◌, ◌++◌, String, ◌==◌, leb, is_none, is_some, is_value, get_or, select, count, find,
  update_where, if◌then◌else◌,
}
use scales_infrastructure.Models.Tables.{
  Status, completed, ReferenceType, tip, QueueRequest, Singer, PointsEntry, CheckInSession, Tables,
}
use scales_infrastructure.Models.Session.{Clock, Action, pure, modify, commit, ◌>>=◌, ◌>>◌}

abbrev pub is_completed : Status → Bool
is_completed completed = true
is_completed _ = false

-- `(singer.total_points or 0) + amount`
abbrev pub bump_total : ℤ → ℕ → Singer → Singer
bump_total amount now r = record r {
  total_points = some (get_or r.total_points (pos 0) +ℤ amount);
  updated_at = some now;
}

-- The effect of `add_points` on the tables.
unfoldable pub record_points :
    ℕ → ℕ → ℕ → ℤ → String → Option ReferenceType → Option ℕ → Tables → Tables
record_points now v singer amount reason kind ref t = record t {
  points_ledger =
      t.points_ledger
      ++ record {
        venue_id = v;
        singer_id = singer;
        amount = amount;
        reason = reason;
        reference_type = kind;
        reference_id = ref;
        created_at = now;
      }
        ∷ [];
  singers = update_where (λ (r : Singer). r.id == singer) (bump_total amount now) t.singers;
}

-- `add_points`, for the id of a singer's row, as the foreign key of the ledger asks; an amount of 0
-- writes nothing.
unfoldable pub add_points :
    Clock → ℕ → ℕ → ℤ → String → Option ReferenceType → Option ℕ → Action (Unit {0})
add_points c v singer amount reason kind ref =
    if eqb_ℤ amount (pos 0)
    then pure tt
    else (modify (record_points c.now v singer amount reason kind ref) >> commit)

unfoldable pub sum_amounts : (PointsEntry → Bool) → List PointsEntry → ℤ
sum_amounts p [] = pos 0
sum_amounts p (e ∷ es) = (if p e then e.amount else pos 0) +ℤ sum_amounts p es

-- The `period` argument; any other text is no cutoff.
pub data Period : Type 0 where
  week month all_time : Period

-- `_period_start`
pub period_start : Clock → Period → Option ℕ
period_start c week = some (c.ago 604800)
period_start c month = some (c.ago 2592000)
period_start c all_time = none

abbrev pub entry_of : ℕ → ℕ → PointsEntry → Bool
entry_of v singer e = (e.venue_id == v) && (e.singer_id == singer)

-- `stmt.where(PointsLedger.created_at >= cutoff)` where there is a cutoff
abbrev pub since : Option ℕ → PointsEntry → Bool
since none e = true
since (some cutoff) e = leb cutoff e.created_at

-- `get_singer_period_points`
pub get_singer_period_points : Clock → ℕ → ℕ → Period → Tables → ℤ
unfolding sum_amounts period_start
get_singer_period_points c v singer period t =
    sum_amounts (λ e. entry_of v singer e && since (period_start c period) e) t.points_ledger

-- `_eval_completed_songs`, `_eval_checkins`, `_eval_tips`
abbrev pub completed_by : ℕ → ℕ → QueueRequest → Bool
completed_by v singer r =
    (r.venue_id == v)
    && is_value r.singer_id singer
    && is_completed r.status
    && is_none r.deleted_at

pub eval_completed_songs : ℕ → ℕ → Tables → ℤ
eval_completed_songs v singer t = pos (count (completed_by v singer) t.queue_requests)

pub eval_checkins : ℕ → ℕ → Tables → ℤ
eval_checkins v singer t = pos (
    count (λ (k : CheckInSession). (k.venue_id == v) && (k.singer_id == singer))
      t.check_in_sessions)

abbrev pub is_tip : Option ReferenceType → Bool
is_tip (some tip) = true
is_tip _ = false

pub eval_tips : ℕ → ℕ → Tables → ℤ
unfolding sum_amounts
eval_tips v singer t =
    sum_amounts (λ e. entry_of v singer e && is_tip e.reference_type) t.points_ledger
