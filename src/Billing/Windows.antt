-- ===== src/Billing/Windows.antt =====
-- How long a venue may use paid features (app/services/billing_lifecycle.py).
use scales_infrastructure.Prelude.{ℕ, ◌+◌, ◌*◌, ◌≡◌, refl, false, none, some, leb, if◌then◌else◌}
use scales_infrastructure.Billing.{
  Venue, Calendar, is_active_for_billing, grace_period_ends_at, is_trialing, set_trial_dates,
  set_active_subscription, set_past_due, set_cancelled,
}

-- A trial lasts for its days, to the second, whatever the venue's status was: up to its end the
-- venue is trialing and may use paid features, and after it neither. A text that is written
-- parses to its time, and the venue is active and not deleted.
pub set_trial_dates_lem :
    (cal : Calendar) (start days now : ℕ) (venue : Venue)
    → cal.parse (cal.format (start + days * 86400)) ≡ some (start + days * 86400)
    → venue.is_active ≡ 1
    → venue.deleted_at ≡ none
    → (is_active_for_billing cal now (set_trial_dates cal start days venue)
        ≡ leb now (start + days * 86400))
      × (is_trialing cal now (set_trial_dates cal start days venue)
          ≡ leb now (start + days * 86400))
unfolding is_active_for_billing is_trialing set_trial_dates
set_trial_dates_lem cal start days now venue parses live kept = rw (live, kept, parses) (refl, refl)

-- A paid period that ends in a missed payment leaves three days of grace after its end, to the
-- second, and a cancellation none. A text that is written parses to its time, and the venue is
-- active and not deleted.
pub set_past_due_lem :
    (cal : Calendar) (subscription period_end now : ℕ) (venue : Venue)
    → cal.parse (cal.format period_end) ≡ some period_end
    → venue.is_active ≡ 1
    → venue.deleted_at ≡ none
    → let paid : Venue = set_active_subscription cal subscription period_end venue in
      (is_active_for_billing cal now (set_past_due paid) ≡ leb now (period_end + 259200))
      × (grace_period_ends_at cal now (set_past_due paid) ≡ (
          if leb now (period_end + 259200) then some (cal.format (period_end + 259200)) else none))
      × (is_active_for_billing cal now (set_cancelled (set_past_due paid)) ≡ false)
unfolding is_active_for_billing grace_period_ends_at set_active_subscription set_past_due
    set_cancelled
set_past_due_lem cal subscription period_end now venue parses live kept =
    rw (live, kept, parses) (refl, refl, refl)
