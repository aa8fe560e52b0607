-- ===== src/Tests/SyncRuns.antt =====
-- Runs of the pushes of app/routers/kj_sync.py and of app/core/loyalty_service.py.
use scales_infrastructure.Prelude.{ℕ, ℤ, ◌≡◌, refl, pos, ◌+ℤ◌, none, some, List, [], ◌∷◌}
use scales_infrastructure.Models.Tables.{manual, Singer, LoyaltyTier}
use scales_infrastructure.Models.Session.{Session}
use scales_infrastructure.Points.Ledger.{shown_total}
use scales_infrastructure.Repair.{SyncSingerItem, Part}
use scales_infrastructure.Sync.{push_singers}
use scales_infrastructure.Sync.Newer.{singer_row, push_singers-newer}
use scales_infrastructure.Loyalty.{award_points, compute_tier}
use scales_infrastructure.Loyalty.Tier.{tier_of, IsHighest, award_points-tier}
use scales_infrastructure.Tests.Samples.{evening, show, singer_31, other_singers, session_of}
use scales_infrastructure.Tests.RepairRuns.{plain, renamed}

abbrev seen_tonight : Singer
seen_tonight = record singer_31 { updated_at = some 20260314210000 }

abbrev tonight : Session
tonight =
    let s = session_of show in
    record s {
      db = record s.db { singers = seen_tonight ∷ other_singers };
      committed = record s.committed { singers = seen_tonight ∷ other_singers };
    }

-- The desktop renames and deletes a singer whom it last saw in the morning.
abbrev stale_push : Part SyncSingerItem
stale_push = record {
  items = renamed ∷ [];
  deleted_ids = 31 ∷ [];
  last_modified_at = some 20260314090000;
}

push_singers-newer_example :
    (let s' = (push_singers evening plain none 7 stale_push tonight).1 in
      (singer_row 31 s'.db.singers ≡ some seen_tonight)
      × (singer_row 31 s'.committed.singers ≡ some seen_tonight))
push_singers-newer_example =
    push_singers-newer evening plain none 7 stale_push 31 seen_tonight tonight refl refl refl refl

abbrev tier_from : ℕ → ℤ → LoyaltyTier
tier_from k points = record {
  id = k;
  venue_id = 7;
  min_points = points;
  is_active = 1;
  deleted_at = none;
}

abbrev tiers : List LoyaltyTier
tiers = tier_from 1 (pos 0) ∷ tier_from 3 (pos 100) ∷ tier_from 2 (pos 50) ∷ []

abbrev with_tiers : Session
with_tiers = record tonight { db = record tonight.db { loyalty_tiers = tiers } }

award_points-tier_example :
    (let t' =
        (award_points evening 7 31 (pos 45) "Regular" (some manual) none with_tiers).1.committed in
      (shown_total 31 t'.singers ≡ shown_total 31 with_tiers.db.singers +ℤ pos 45)
      × (tier_of 31 t'.singers ≡ some 2)
      × IsHighest 7 (pos 10 +ℤ pos 45) (tier_from 2 (pos 50)) tiers)
unfolding compute_tier ◌+ℤ◌
award_points-tier_example =
    award_points-tier evening 7 31 (pos 45) "Regular" (some manual) none with_tiers seen_tonight
      (tier_from 2 (pos 50)) refl refl refl
