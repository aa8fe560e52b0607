-- ===== src/Billing.antt =====
-- Subscriptions, trials and the grace period of a venue (app/services/billing_lifecycle.py).
-- Times are seconds; the texts in the columns are numbers.
pub mod Windows
use scales_infrastructure.Prelude.{
  ℕ, ◌+◌, ◌*◌, Bool, true, false, not, ◌&&◌, ◌||◌, Option, none, some, leb, ltb, is_none, is_some,
  if◌then◌else◌,
}

-- The check constraints on the two columns (app/models/__init__.py, `Venue`); they leave only
-- lower case.
pub data SubscriptionStatus : Type 0 where
  trialing active past_due cancelled comped : SubscriptionStatus

pub data BillingStatus : Type 0 where
  trial_billing active_billing past_due_billing cancelled_billing : BillingStatus

pub record Venue : Type 0 where
  pub is_active : ℕ
  pub deleted_at : Option ℕ
  pub subscription_status : Option SubscriptionStatus
  pub billing_status : Option BillingStatus
  pub plan_expires_at : Option ℕ
  pub trial_ends_at : Option ℕ
  pub stripe_subscription_id : Option ℕ

-- `datetime.fromisoformat` on a text, and `strftime`.
pub record Calendar : Type 0 where
  pub parse : ℕ → Option ℕ
  pub format : ℕ → ℕ

-- `_parse_iso`
abbrev pub parse_iso : Calendar → Option ℕ → Option ℕ
parse_iso cal none = none
parse_iso cal (some t) = cal.parse t

abbrev pub grace_period_days : ℕ
grace_period_days = 3

-- `_now() <= end`, for an end that is known
abbrev pub not_after : ℕ → Bool → Option ℕ → Bool
not_after now unknown none = unknown
not_after now unknown (some e) = leb now e

-- `plan_expires + timedelta(days=GRACE_PERIOD_DAYS)`
abbrev grace_end : Option ℕ → Option ℕ
grace_end none = none
grace_end (some e) = some (e + grace_period_days * 86400)

-- `in_grace_period`
unfoldable pub in_grace_period : Calendar → ℕ → Venue → Bool
in_grace_period cal now venue = elim venue.subscription_status [
  | some past_due ↦ not_after now false (grace_end (parse_iso cal venue.plan_expires_at))
  | _ ↦ false
]

-- `venue.subscription_status or "trialing"`
abbrev status_or_trialing : Option SubscriptionStatus → SubscriptionStatus
status_or_trialing none = trialing
status_or_trialing (some s) = s

abbrev allows : Calendar → ℕ → Venue → SubscriptionStatus → Bool
allows cal now venue active = true
allows cal now venue comped = true
allows cal now venue trialing = not_after now true (parse_iso cal venue.trial_ends_at)
allows cal now venue past_due = in_grace_period cal now venue
allows cal now venue cancelled = false

-- `is_active_for_billing`
unfoldable pub is_active_for_billing : Calendar → ℕ → Venue → Bool
unfolding in_grace_period
is_active_for_billing cal now venue =
    ltb 0 venue.is_active
    && is_none venue.deleted_at
    && allows cal now venue (status_or_trialing venue.subscription_status)

-- `grace_period_ends_at`
unfoldable pub grace_period_ends_at : Calendar → ℕ → Venue → Option ℕ
unfolding in_grace_period
grace_period_ends_at cal now venue =
    if in_grace_period cal now venue
    then elim (grace_end (parse_iso cal venue.plan_expires_at)) [
      | none ↦ none
      | some e ↦ some (cal.format e)
    ]
    else none

-- `is_trialing`
unfoldable pub is_trialing : Calendar → ℕ → Venue → Bool
is_trialing cal now venue = elim venue.subscription_status [
  | some trialing ↦ not_after now true (parse_iso cal venue.trial_ends_at)
  | _ ↦ false
]

-- `set_trial_dates`
unfoldable pub set_trial_dates : Calendar → ℕ → ℕ → Venue → Venue
set_trial_dates cal now days venue = record venue {
  trial_ends_at = some (cal.format (now + days * 86400));
  plan_expires_at = none;
  subscription_status = some trialing;
  billing_status = some trial_billing;
}

-- `set_active_subscription`
unfoldable pub set_active_subscription : Calendar → ℕ → ℕ → Venue → Venue
set_active_subscription cal subscription period_end venue = record venue {
  stripe_subscription_id = some subscription;
  subscription_status = some active;
  billing_status = some active_billing;
  plan_expires_at = some (cal.format period_end);
}

-- `set_past_due`
unfoldable pub set_past_due : Venue → Venue
set_past_due venue = record venue {
  subscription_status = some past_due;
  billing_status = some past_due_billing;
}

-- `set_cancelled`
unfoldable pub set_cancelled : Venue → Venue
set_cancelled venue = record venue {
  subscription_status = some cancelled;
  billing_status = some cancelled_billing;
}

-- The statuses of a Stripe event; `other_event` is any text that the source does not list.
pub data EventStatus : Type 0 where
  active_event trialing_event canceled_event cancelled_event past_due_event : EventStatus
  unpaid_event incomplete_event incomplete_expired_event other_event : EventStatus

-- `subscription_status_for_event`
unfoldable pub subscription_status_for_event : Option EventStatus → SubscriptionStatus
subscription_status_for_event none = active
subscription_status_for_event (some active_event) = active
subscription_status_for_event (some trialing_event) = trialing
subscription_status_for_event (some canceled_event) = cancelled
subscription_status_for_event (some cancelled_event) = cancelled
subscription_status_for_event (some past_due_event) = past_due
subscription_status_for_event (some unpaid_event) = past_due
subscription_status_for_event (some incomplete_event) = past_due
subscription_status_for_event (some incomplete_expired_event) = past_due
subscription_status_for_event (some other_event) = active
