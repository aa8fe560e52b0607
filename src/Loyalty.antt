-- ===== src/Loyalty.antt =====
-- Loyalty points and tiers (app/core/loyalty_service.py). A price is a number of cents, and
-- `int(total_cents * 0.01)` its whole dollars.
pub mod Tier
use scales_infrastructure.Prelude.{
  ℕ, ℤ, pos, ◌+ℤ◌, eqb_ℤ, leb_ℤ, ◌/◌, max, Bool, true, false, ◌&&◌, Option, none, some, List, [],
  ◌∷◌, ◌++◌, String, ◌==◌, is_none, is_value, get_or, count, first, select, sort, update_where,
  if◌then◌else◌,
}
use text.Mathlib.Text.{◌==◌ as str_eq}
use scales_infrastructure.Models.Tables.{
  ReferenceType, queue_request, achievement, order, manual, Singer, LoyaltyTier, Order, PointsEntry,
  QueueRequest, Tables,
}
use scales_infrastructure.Models.Session.{Clock, Action, pure, gets, modify, commit, ◌>>=◌, ◌>>◌}
use scales_infrastructure.Points.{completed_by}

abbrev performance_points : ℤ
performance_points = pos 10

abbrev first_performance_bonus : ℤ
first_performance_bonus = pos 50

abbrev first_purchase_bonus : ℤ
first_purchase_bonus = pos 100

-- The WHERE of `_compute_tier`.
abbrev pub is_reached : ℕ → ℤ → LoyaltyTier → Bool
is_reached v points u =
    (u.venue_id == v) && (u.is_active == 1) && is_none u.deleted_at && leb_ℤ u.min_points points

-- ORDER BY min_points DESC
abbrev pub highest_first : LoyaltyTier → LoyaltyTier → Bool
highest_first a b = leb_ℤ b.min_points a.min_points

-- `_compute_tier`
unfoldable pub compute_tier : ℕ → ℤ → List LoyaltyTier → Option LoyaltyTier
compute_tier v points tiers = first (sort highest_first (select (is_reached v points) tiers))

abbrev pub tier_or : Option LoyaltyTier → Option ℕ → Option ℕ
tier_or none old = old
tier_or (some tier) old = some tier.id

-- The writes to the singer: where no tier is reached, the old one stays.
abbrev pub awarded : ℕ → ℕ → ℤ → List LoyaltyTier → Singer → Singer
awarded now v amount tiers r =
    let total = get_or r.total_points (pos 0) +ℤ amount in
    record r {
      total_points = some total;
      loyalty_tier_id = tier_or (compute_tier v total tiers) r.loyalty_tier_id;
      updated_at = some now;
    }

-- What `award_points` makes of the tables.
unfoldable pub record_award :
    ℕ → ℕ → ℕ → ℤ → String → Option ReferenceType → Option ℕ → Tables → Tables
record_award now v singer amount reason kind ref t = record t {
  loyalty_points =
      t.loyalty_points
      ++ record {
        venue_id = v;
        singer_id = singer;
        amount = amount;
        reason = reason;
        reference_type = kind;
        reference_id = ref;
        created_at = now;
      }
        ∷ [];
  singers =
      update_where (λ (r : Singer). r.id == singer) (awarded now v amount t.loyalty_tiers)
        t.singers;
}

-- `award_points`
unfoldable pub award_points :
    Clock → ℕ → ℕ → ℤ → String → Option ReferenceType → Option ℕ → Action (Unit {0})
unfolding record_award
award_points c v singer amount reason kind ref =
    if eqb_ℤ amount (pos 0)
    then pure tt
    else (modify (record_award c.now v singer amount reason kind ref) >> commit)

-- `award_performance_points`: a bonus where the singer has completed exactly one request.
pub award_performance_points : Clock → ℕ → ℕ → ℕ → Action (Unit {0})
award_performance_points c v singer rid = do
  award_points c v singer performance_points "Performance completed" (some queue_request) (some rid)
  completed_count ← gets (λ t. count (completed_by v singer) t.queue_requests)
  if completed_count == 1
      then award_points c v singer first_performance_bonus "First performance at venue"
          (some achievement) none
      else pure tt

abbrev order_of : ℕ → ℕ → Order → Bool
order_of v singer r = (r.venue_id == v) && is_value r.singer_id singer && is_none r.deleted_at

-- `award_purchase_points`: a point for each dollar, at least one.
pub award_purchase_points : Clock → ℕ → ℕ → ℕ → ℕ → Action (Unit {0})
award_purchase_points c v singer oid total_cents = do
  award_points c v singer (pos (max 1 (total_cents / 100))) "Merch purchase" (some order) (some oid)
  order_count ← gets (λ t. count (order_of v singer) t.orders)
  if order_count == 1
      then award_points c v singer first_purchase_bonus "First merch purchase" (some achievement)
          none
      else pure tt

-- `manual_award`
pub manual_award : Clock → ℕ → ℕ → ℤ → String → Action (Unit {0})
manual_award c v singer amount reason =
    award_points c v singer amount (if str_eq reason "" then "Manual award" else reason)
      (some manual) none
