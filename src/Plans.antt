-- ===== src/Plans.antt =====
-- Plans and subscriptions, as backend/prisma/schema.prisma declares them (the columns that the
-- services read), and the query `subscription.findUnique` with `include: { plan: true }`. Prices
-- are in cents.
use callnow.Base.{ℕ, String, Bool, List, Option, find_first, none, some, ◌==◌}

pub record Plan : Type 0 where
  pub id : String
  pub name : String
  pub max_numbers : ℕ
  pub included_minutes : ℕ
  pub included_sms : ℕ
  pub included_mms : ℕ
  pub power_dialer_enabled : Bool
  pub monthly_price : ℕ

pub data SubscriptionStatus : Type 0 where
  active canceled past_due trialing : SubscriptionStatus

pub record Subscription : Type 0 where
  pub user_id : String
  pub plan_id : String
  pub stripe_subscription_id : Option String
  pub status : SubscriptionStatus
  pub period_start : Option ℕ
  pub period_end : Option ℕ
  pub canceled_at : Option ℕ

unfoldable pub find_plan : String → List Plan → Option Plan
find_plan id = find_first (λ p. p.id == id)

unfoldable pub find_subscription : String → List Subscription → Option Subscription
find_subscription user_id = find_first (λ b. b.user_id == user_id)

-- `subscription?.plan`; the column `plan_id` is a foreign key
unfoldable pub plan_of : String → List Subscription → List Plan → Option Plan
plan_of user_id subscriptions plans = elim (find_subscription user_id subscriptions) [
  | none ↦ none
  | some b ↦ find_plan b.plan_id plans
]
