-- ===== src/Billing/Examples.antt =====
-- Runs of the usage tracker and of a change of plan on a small store.
use callnow.Base.{[], false, none, ◌∷◌, ◌≡◌, some, String, Option, true, if◌then◌else◌, ◌==◌}
use callnow.Plans.{Plan, Subscription, SubscriptionStatus}
use callnow.Billing.{Store, Period, SubscriptionStatus, new_record}
use callnow.Billing.Account.{Ledger}
use callnow.Billing.Stripe.{
  Field, StripeRequest, handle_stripe_webhook, EventObject, null, StripeEvent,
}
use callnow.Billing.StripeLaws.{handle_stripe_webhook-signed, webhook_outcome, genuine_event}

abbrev small : Plan
small = record {
  id = "p1";
  name = "small";
  max_numbers = 1;
  included_minutes = 10;
  included_sms = 2;
  included_mms = 0;
  power_dialer_enabled = false;
  monthly_price = 1000;
}

abbrev large : Plan
large = record small { id = "p2"; name = "large"; included_sms = 500 }

abbrev subscribed : Subscription
subscribed = record {
  user_id = "u1";
  plan_id = "p1";
  stripe_subscription_id = none;
  status = SubscriptionStatus.past_due;
  period_start = none;
  period_end = none;
  canceled_at = none;
}

abbrev tables : Store
tables = record { usage = []; subscriptions = subscribed ∷ []; plans = small ∷ large ∷ [] }

abbrev january : Period
january = record { start = 0; end = 2592000000; row_id = "r1" }

abbrev paying : String
paying = "00000000-0000-0000-0000-000000000002"

abbrev pro : Plan
pro = record small { id = paying; name = "pro"; included_sms = 0 }

abbrev free : Plan
free = record small { id = "00000000-0000-0000-0000-000000000001"; name = "free" }

abbrev unlimited : Store
unlimited = record tables {
  subscriptions = record subscribed { plan_id = paying } ∷ [];
  plans = pro ∷ free ∷ [];
  usage = new_record january "u1" ∷ [];
}

abbrev ledger : Ledger
ledger = record {
  billing = record unlimited { subscriptions = [] };
  customers = ("u1", none) ∷ ("u2", some "cus_2") ∷ [];
  invoices = [];
}

abbrev object : Field → EventObject
object customer = record {
  customer = customer;
  subscription = some "sub_1";
  id = some "in_1";
  amount_paid = 1500;
  currency = none;
}

abbrev request : StripeRequest
request = record {
  body = record { type = "checkout.session.completed"; object = object null };
  signature = some "t=1";
}

abbrev verify : StripeRequest → String → String → Option StripeEvent
verify r signature secret = if signature == "t=1" then some r.body else none

handle_stripe_webhook-signed_example :
    handle_stripe_webhook verify true "whsec" 10 "i1" request ledger
    ≡ webhook_outcome 10 "i1" ledger (genuine_event verify "whsec" request)
handle_stripe_webhook-signed_example =
    handle_stripe_webhook-signed verify "whsec" 10 "i1" request ledger
