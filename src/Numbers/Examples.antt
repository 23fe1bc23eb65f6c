-- ===== src/Numbers/Examples.antt =====
-- Runs of the numbers service on a small store.
use callnow.Base.{
  false, none, some, true, ◌∷◌, [], ◌≡◌, ◌≤◌, ok, refl, ◌==◌, arith, sym, ap, Option, String,
  exists_where, ◌&&◌,
}
use callnow.Plans.{Plan, Subscription, plan_of, SubscriptionStatus, find_subscription, find_plan}
use callnow.Numbers.{
  PhoneNumber, Provider, Capabilities, Store, NumberStatus, count_active, get_user_by_number,
  grace_period_run, plan_of, release_number, provision_number, Provisioned, is_active,
}
use callnow.Numbers.Laws.{provision_number-limit}
use callnow.Numbers.Lifecycle.{Reach-Follows, find_id, Follows, next, here, release, grace_run}
use callnow.Numbers.Lookup.{IsOwner, Serves-lookup}
use callnow.Numbers.Ownership.{then_serve, start, provisioned, let_go}

abbrev all_capabilities : Capabilities
all_capabilities = record { voice = true; sms = true; mms = true }

abbrev carrier : Provider
carrier = record {
  name = "telnyx";
  provision_number = λ number. some (record {
    provider_sid = "sid2";
    number = number;
    country_code = "US";
    capabilities = all_capabilities;
  });
  release_number = λ sid. true;
}

abbrev ann_number : PhoneNumber
ann_number = record {
  id = "n1";
  user_id = "u1";
  number = "+15550001";
  provider_sid = "sid1";
  provider = "telnyx";
  country_code = "US";
  capabilities = all_capabilities;
  status = NumberStatus.active;
  monthly_cost = 100;
  released_at = none;
}

abbrev starter : Plan
starter = record {
  id = "p1";
  name = "starter";
  max_numbers = 1;
  included_minutes = 500;
  included_sms = 1000;
  included_mms = 0;
  power_dialer_enabled = false;
  monthly_price = 1000;
}

abbrev ann_subscription : Subscription
ann_subscription = record {
  user_id = "u1";
  plan_id = "p1";
  stripe_subscription_id = none;
  status = SubscriptionStatus.active;
  period_start = none;
  period_end = none;
  canceled_at = none;
}

abbrev tables : Store
tables = record {
  numbers = ann_number ∷ [];
  subscriptions = ann_subscription ∷ record ann_subscription { user_id = "u2" } ∷ [];
  plans = starter ∷ [];
  cache = [];
  asked = [];
  released_sids = [];
}

provision_number-limit_example :
    count_active "u2" (provision_number carrier true "n2" "u2" "+15550002" tables).1.numbers ≤ 1
unfolding plan_of find_subscription find_plan count_active
provision_number-limit_example =
    provision_number-limit carrier true "n2" "u2" "+15550002" "u2" tables starter refl (omega arith)

abbrev number_sold : Option Provisioned → String
number_sold none = ""
number_sold (some v) = v.number

other_number :
    (v : Provisioned)
    → carrier.provision_number "+15550009" ≡ some v
    → exists_where (λ n. n.number == v.number && is_active n.status) tables.numbers ≡ false
other_number v sold = let same : v.number ≡ "+15550009" = sym (ap number_sold sold) in rw same refl

-- The provider sells +15550009, which nobody has; then its user lets the first number go.
Serves-lookup_example :
    (u : Option String) × ((get_user_by_number carrier true "+15550001"
        (release_number carrier true 10 "u1" "n1"
          (provision_number carrier true "n2" "u2" "+15550009" tables).1).1).0
      ≡ ok u)
    × IsOwner "+15550001" u
        (release_number carrier true 10 "u1" "n1"
          (provision_number carrier true "n2" "u2" "+15550009" tables).1).1.numbers
Serves-lookup_example =
    Serves-lookup carrier true "+15550001" refl (refl, tt) (refl, tt)
      (then_serve
        (then_serve start
          (provisioned true "n2" "u2" "+15550009" refl refl (λ v sold. other_number v sold)))
        (let_go 10 "u1" "n1"))

Reach-Follows_example :
    (m : PhoneNumber) × (find_id "n1"
        (grace_period_run carrier true 604800010
          (release_number carrier true 10 "u1" "n1" tables).1).1.numbers
      ≡ some m)
    × Follows ann_number m
unfolding find_id
Reach-Follows_example =
    Reach-Follows carrier "n1" ann_number
      (next (next here (release true 10 "u1" "n1")) (grace_run true 604800010)) (refl, tt) refl
