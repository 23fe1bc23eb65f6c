-- ===== src/Billing.antt =====
-- backend/src/billing/usage-tracker.service.ts, and the change of plan in billing.service.ts. The
-- period is the month of the call in the server's time zone, whose first and last days are
-- arguments, in milliseconds; what the services only log is left out.
pub mod Usage
pub mod Account
pub mod Stripe
pub mod StripeLaws
mod Examples
use callnow.Base.{
  ℕ, List, String, Option, Bool, Action, find_first, if◌then◌else◌, ltb, pure, some, update_where,
  ◌*◌, ◌+◌, ◌>>=◌, gets, is_some, require, throw_if, ◌&&◌, ◌==◌, ◌>>◌, bad_request, eqb, leb,
  modify, none, false, insert_row, not_found, plan_limit_exceeded,
}
use callnow.Plans.{Plan, Subscription, find_plan, plan_of, find_subscription, SubscriptionStatus}

-- the columns that the services read or write
pub record UsageRecord : Type 0 where
  pub id : String
  pub user_id : String
  pub period_start : ℕ
  pub period_end : ℕ
  pub minutes_used : ℕ
  pub sms_sent : ℕ
  pub sms_received : ℕ
  pub mms_sent : ℕ
  pub numbers_held : ℕ

pub data Resource : Type 0 where
  sms minutes numbers : Resource

pub data Counter : Type 0 where
  sms_sent sms_received numbers_held : Counter

pub record Store : Type 0 where
  pub usage : List UsageRecord
  pub subscriptions : List Subscription
  pub plans : List Plan

-- the month of a call, and the id for a new record
pub record Period : Type 0 where
  pub start : ℕ
  pub end : ℕ
  pub row_id : String

unfoldable pub find_usage : String → ℕ → List UsageRecord → Option UsageRecord
find_usage user_id start = find_first (λ r. r.user_id == user_id && eqb r.period_start start)

unfoldable pub new_record : Period → String → UsageRecord
new_record p user_id = record {
  id = p.row_id;
  user_id = user_id;
  period_start = p.start;
  period_end = p.end;
  minutes_used = 0;
  sms_sent = 0;
  sms_received = 0;
  mms_sent = 0;
  numbers_held = 0;
}

abbrev pub found_or_created : Period → String → Option UsageRecord → Action Store UsageRecord
found_or_created p user_id (some r) = pure r
found_or_created p user_id none = do
  modify (λ s. record s { usage = insert_row (new_record p user_id) s.usage })
  pure (new_record p user_id)

abbrev pub get_or_create_record : Period → String → Action Store UsageRecord
get_or_create_record p user_id = do
  found ← gets (λ s. find_usage user_id p.start s.usage)
  found_or_created p user_id found

abbrev pub add_one : Counter → UsageRecord → UsageRecord
add_one sms_sent r = record r { sms_sent = r.sms_sent + 1 }
add_one sms_received r = record r { sms_received = r.sms_received + 1 }
add_one numbers_held r = record r { numbers_held = r.numbers_held + 1 }

unfoldable pub bump : Counter → String → List UsageRecord → List UsageRecord
bump counter id = update_where (λ r. r.id == id) (add_one counter)

unfoldable pub add_minutes : ℕ → String → List UsageRecord → List UsageRecord
add_minutes n id =
    update_where (λ r. r.id == id) (λ r. record r { minutes_used = r.minutes_used + n })

abbrev pub alert_on : Period → String → Option Plan → Action Store (Unit {0})
alert_on p user_id none = pure tt
alert_on p user_id (some plan) = do get_or_create_record p user_id; pure tt

-- `checkAndAlert`: its warnings are logs.
abbrev pub check_and_alert : Period → String → Action Store (Unit {0})
check_and_alert p user_id = do
  plan ← gets (λ s. plan_of user_id s.subscriptions s.plans)
  alert_on p user_id plan

unfoldable pub increment : Period → String → Counter → Action Store (Unit {0})
increment p user_id counter = do
  r ← get_or_create_record p user_id
  modify (λ s. record s { usage = bump counter r.id s.usage })
  check_and_alert p user_id

unfoldable pub increment_minutes : Period → String → ℕ → Action Store (Unit {0})
increment_minutes p user_id n = do
  r ← get_or_create_record p user_id
  modify (λ s. record s { usage = add_minutes n r.id s.usage })
  check_and_alert p user_id

-- `included > 0 && used >= included`; no test is made for numbers.
abbrev pub over_limit : Resource → Plan → UsageRecord → Bool
over_limit sms plan r = ltb 0 plan.included_sms && leb plan.included_sms r.sms_sent
over_limit minutes plan r = ltb 0 plan.included_minutes && leb plan.included_minutes r.minutes_used
over_limit numbers plan r = false

abbrev pub check_plan : Period → String → Resource → Option Plan → Action Store (Unit {0})
check_plan p user_id resource none = pure tt
check_plan p user_id resource (some plan) = do
  r ← get_or_create_record p user_id
  throw_if (over_limit resource plan r) (bad_request plan_limit_exceeded)

unfoldable pub check_limit : Period → String → Resource → Action Store (Unit {0})
check_limit p user_id resource = do
  plan ← gets (λ s. plan_of user_id s.subscriptions s.plans)
  check_plan p user_id resource plan

-- 30 days, in milliseconds
abbrev pub month : ℕ
month = 30 * 24 * 60 * 60 * 1000

-- `subscription.upsert` of `upgradePlan`
unfoldable pub subscribe : ℕ → String → String → List Subscription → List Subscription
subscribe now user_id plan_id rows =
    if is_some (find_subscription user_id rows)
    then update_where (λ b. b.user_id == user_id)
        (λ b. record b {
          plan_id = plan_id;
          status = SubscriptionStatus.active;
          period_start = some now;
          period_end = some (now + month);
        })
        rows
    else insert_row
        (record {
          user_id = user_id;
          plan_id = plan_id;
          stripe_subscription_id = none;
          status = SubscriptionStatus.active;
          period_start = some now;
          period_end = some (now + month);
          canceled_at = none;
        })
        rows

unfoldable pub upgrade_plan : ℕ → String → String → Action Store Plan
upgrade_plan now user_id plan_id = do
  plan ← require (λ s. find_plan plan_id s.plans) (bad_request not_found)
  modify (λ s. record s { subscriptions = subscribe now user_id plan_id s.subscriptions })
  pure plan
