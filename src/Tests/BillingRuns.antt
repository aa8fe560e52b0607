-- ===== src/Tests/BillingRuns.antt =====
-- Runs of app/services/billing_lifecycle.py.
use scales_infrastructure.Prelude.{◌+◌, ◌*◌, ◌≡◌, refl, none, some, leb}
use scales_infrastructure.Billing.{
  Venue, Calendar, is_active_for_billing, is_trialing, set_trial_dates, set_active_subscription,
}
use scales_infrastructure.Billing.Windows.{set_trial_dates_lem}

abbrev venue : Venue
venue = record {
  is_active = 1;
  deleted_at = none;
  subscription_status = none;
  billing_status = none;
  plan_expires_at = none;
  trial_ends_at = none;
  stripe_subscription_id = none;
}

abbrev calendar : Calendar
calendar = record { parse = λ t. some t; format = λ t. t }

abbrev paid : Venue
paid = set_active_subscription calendar 12 5000 venue

set_trial_dates_lem_example :
    (is_active_for_billing calendar 2000 (set_trial_dates calendar 1000 14 venue)
      ≡ leb 2000 (1000 + 14 * 86400))
    × (is_trialing calendar 2000 (set_trial_dates calendar 1000 14 venue)
        ≡ leb 2000 (1000 + 14 * 86400))
set_trial_dates_lem_example = set_trial_dates_lem calendar 1000 14 2000 venue refl refl refl
