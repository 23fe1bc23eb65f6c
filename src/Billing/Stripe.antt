-- ===== src/Billing/Stripe.antt =====
-- backend/src/billing/webhooks/stripe-webhook.controller.ts. The Stripe library checks a signature and
-- reads an event, which are arguments; an event has the fields that the handlers read.
use callnow.Base.{
  ℕ, Action, List, Option, String, Bool, Result, find_first, if◌then◌else◌, or_text, pure, ◌>>=◌,
  err, gets, is_some, not, require, some, true, ◌+◌, ◌==◌, is_none, modify, none, throw, truthy,
  update_required, fault, is_text, ok, update_where, ◌>>◌, ◌||◌, catch_with, insert_row, throw_if,
  truthy?, bad_request, ◌&&◌, forbidden, result_of,
}
use callnow.Billing.Account.{Ledger, Invoice, add_invoice}
use callnow.Plans.{Subscription, SubscriptionStatus, find_plan, find_subscription}
use callnow.Billing.{month}

-- A field of the event's object may be absent, null or a text.
pub data Field : Type 0 where
  absent null : Field
  text : String → Field

-- `amount_paid` is in cents, 0 where it is missing; `id` and `subscription` are null unless texts.
pub record EventObject : Type 0 where
  pub customer : Field
  pub subscription : Option String
  pub id : Option String
  pub amount_paid : ℕ
  pub currency : Option String

pub record StripeEvent : Type 0 where
  pub type : String
  pub object : EventObject

-- `where: { stripeCustomerId: … }`: an undefined value is no condition, and null is a value.
abbrev pub has_customer : Field → Option String → Bool
has_customer absent id = true
has_customer null id = is_none id
has_customer (text c) id = is_text id c

unfoldable pub find_customer :
    Field → List (String × Option String) → Option (String × Option String)
find_customer customer = find_first (λ u. has_customer customer u.1)

abbrev pub pro_plan : String
pro_plan = "00000000-0000-0000-0000-000000000002"

abbrev pub free_plan : String
free_plan = "00000000-0000-0000-0000-000000000001"

abbrev pub activate : ℕ → Option String → Subscription → Subscription
activate now stripe_id b = record b {
  stripe_subscription_id = stripe_id;
  status = SubscriptionStatus.active;
  period_start = some now;
  period_end = some (now + month);
}

abbrev pub new_subscription : ℕ → Option String → String → Subscription
new_subscription now stripe_id user_id = record {
  user_id = user_id;
  plan_id = pro_plan;
  stripe_subscription_id = stripe_id;
  status = SubscriptionStatus.active;
  period_start = some now;
  period_end = some (now + month);
  canceled_at = none;
}

-- the table after the `upsert`
unfoldable pub activated : ℕ → Option String → String → List Subscription → List Subscription
activated now stripe_id user_id rows =
    if is_some (find_subscription user_id rows)
    then update_where (λ b. b.user_id == user_id) (activate now stripe_id) rows
    else insert_row (new_subscription now stripe_id user_id) rows

abbrev pub of_user : String → Subscription → Bool
of_user user_id b = b.user_id == user_id

abbrev pub set_subscriptions : List Subscription → Ledger → Ledger
set_subscriptions rows s = record s { billing = record s.billing { subscriptions = rows } }

-- `subscription.upsert`; the new row's plan is a foreign key
abbrev pub activate_user : ℕ → Option String → String → Action Ledger (Unit {0})
activate_user now stripe_id user_id = do
  known ← gets (λ s.
      is_some (find_subscription user_id s.billing.subscriptions)
      || is_some (find_plan pro_plan s.billing.plans))
  throw_if (not known) fault
  modify (λ s. set_subscriptions (activated now stripe_id user_id s.billing.subscriptions) s)

abbrev pub checkout_user :
    ℕ → Option String → Option (String × Option String) → Action Ledger (Unit {0})
checkout_user now stripe_id none = pure tt
checkout_user now stripe_id (some u) = activate_user now stripe_id u.0

unfoldable pub handle_checkout_completed : ℕ → EventObject → Action Ledger (Unit {0})
unfolding activated
handle_checkout_completed now o = do
  u ← gets (λ s. find_customer o.customer s.customers)
  checkout_user now o.subscription u

-- Stripe's cents over 100 are kept in cents here.
abbrev pub paid_invoice : ℕ → String → String → EventObject → Invoice
paid_invoice now id user_id o = record {
  id = id;
  user_id = user_id;
  stripe_invoice_id = o.id;
  amount = o.amount_paid;
  currency = or_text o.currency "usd";
  status = "paid";
  period_start = now;
  period_end = now + month;
  pdf_url = none;
  paid_at = some now;
  created_at = now;
}

abbrev pub invoice_user :
    ℕ → String → EventObject → Option (String × Option String) → Action Ledger (Unit {0})
invoice_user now id o none = pure tt
invoice_user now id o (some u) = modify (add_invoice (paid_invoice now id u.0 o))

unfoldable pub handle_invoice_paid : ℕ → String → EventObject → Action Ledger (Unit {0})
handle_invoice_paid now id o = do
  u ← gets (λ s. find_customer o.customer s.customers)
  invoice_user now id o u

abbrev pub cancel : ℕ → Subscription → Subscription
cancel now b = record b {
  status = SubscriptionStatus.canceled;
  plan_id = free_plan;
  canceled_at = some now;
}

abbrev pub set_past_due : Subscription → Subscription
set_past_due b = record b { status = SubscriptionStatus.past_due }

-- `subscription.update` of one user
abbrev pub update_user : (Subscription → Subscription) → String → Action Ledger (Unit {0})
update_user f user_id = do
  rows ← require (λ s. update_required (of_user user_id) f s.billing.subscriptions) fault
  modify (set_subscriptions rows)

abbrev pub update_customer :
    (Subscription → Subscription) → Option (String × Option String) → Action Ledger (Unit {0})
update_customer f none = pure tt
update_customer f (some u) = update_user f u.0

unfoldable pub handle_payment_failed : EventObject → Action Ledger (Unit {0})
handle_payment_failed o = do
  u ← gets (λ s. find_customer o.customer s.customers)
  update_customer set_past_due u

-- The free plan, which the seeds add, is a foreign key.
unfoldable pub handle_subscription_deleted : ℕ → EventObject → Action Ledger (Unit {0})
handle_subscription_deleted now o = do
  u ← gets (λ s. find_customer o.customer s.customers)
  known ← gets (λ s. is_some (find_plan free_plan s.billing.plans))
  throw_if (is_some u && not known) fault
  update_customer (cancel now) u

-- the `switch`
unfoldable pub dispatch : ℕ → String → StripeEvent → Action Ledger (Unit {0})
dispatch now id e =
    if e.type == "checkout.session.completed"
    then handle_checkout_completed now e.object
    else if e.type == "invoice.paid"
    then handle_invoice_paid now id e.object
    else if e.type == "invoice.payment_failed"
    then handle_payment_failed e.object
    else if e.type == "customer.subscription.deleted"
    then handle_subscription_deleted now e.object
    else pure tt

-- A request: the body read as an event without a check, and the signature's header. Where there is
-- a signature, the Stripe library answers the event, or `none` where it throws.
pub record StripeRequest : Type 0 where
  pub body : StripeEvent
  pub signature : Option String

-- `secret` is STRIPE_WEBHOOK_SECRET, empty where it is not set.
unfoldable pub verified_event :
    (StripeRequest → String → String → Option StripeEvent)
    → Bool
    → String
    → StripeRequest
    → Result StripeEvent
verified_event construct_event is_prod secret r =
    if not (truthy secret) || not (truthy? r.signature)
    then if is_prod then err (bad_request forbidden) else ok r.body
    else result_of (construct_event r (or_text r.signature "") secret) (bad_request forbidden)

-- Whatever the handlers throw, Stripe is answered with success; what was written stays.
abbrev pub always_success : ℕ → String → Result StripeEvent → Action Ledger Bool
always_success now id (err e) = throw e
always_success now id (ok e) = catch_with (do dispatch now id e; pure true) (λ x. pure true)

unfoldable pub handle_stripe_webhook :
    (StripeRequest → String → String → Option StripeEvent)
    → Bool
    → String
    → ℕ
    → String
    → StripeRequest
    → Action Ledger Bool
unfolding verified_event
handle_stripe_webhook construct_event is_prod secret now id r =
    always_success now id (verified_event construct_event is_prod secret r)
