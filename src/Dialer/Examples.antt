-- ===== src/Dialer/Examples.antt =====
-- Runs of the dialer on a small store.
use callnow.Base.{
  List, none, some, true, ◌∷◌, [], is_ok, ◌≡◌, refl, insert_row, ◌++◌, ◌+◌, length, All, ◌≤◌,
  update_where, ◌==◌,
}
use callnow.Plans.{Plan, Subscription, SubscriptionStatus, plan_of, find_subscription, find_plan}
use callnow.Numbers.{PhoneNumber, NumberStatus, find_own_active}
use callnow.Dialer.{
  Campaign, CampaignContact, CampaignStatus, CreateCampaign, DncEntry, Progress, Request, Row,
  Store, Event,
}
use callnow.Dialer.CsvValidator.{
  Report, validate, checked, invalid_e164, column_of, phone_empty, find_column, check_rows,
  check_row, cell, phone_of, has_phone,
}
use callnow.Dialer.Campaigns.{create_campaign, new_campaign, dnc_phones, find_campaign}
use callnow.Dialer.ValidatorLaws.{validate-accounts}
use callnow.Dialer.Upload.{create_campaign-total, IsCallable}
use callnow.Dialer.ProgressLaws.{find_id, reported, handle_progress_callback-reported}
use callnow.Dialer.Control.{handle_progress_callback}
use callnow.Dialer.ControlLaws.{start_campaign-Startable, Startable}
use callnow.Dialer.Control.{start_campaign, pending_leads}
use callnow.Dialer.Text.{trim, trim_start, trim_end, lower_equals, is_e164}

-- a file with a number to call, one on the do-not-call list, one that is not E.164, and none
abbrev file : List Row
file =
    (("Phone", "+15550002") ∷ ("name", "Bob") ∷ [])
    ∷ (("Phone", "+15550003") ∷ ("name", "") ∷ [])
    ∷ (("Phone", "5550004") ∷ [])
    ∷ (("Phone", " ") ∷ [])
    ∷ []

abbrev settings : CreateCampaign
settings = record {
  name = "spring";
  from_number = "+15550001";
  concurrency = some 2;
  delay_seconds = none;
  retry_max = none;
  voicemail_drop_url = none;
  calling_hours_start = none;
  calling_hours_end = none;
  calling_hours_timezone = none;
  scheduled_at = none;
}

abbrev blocked : DncEntry
blocked = record {
  id = "e1";
  user_id = "u1";
  phone = "+15550003";
  source = "manual";
  reason = none;
  created_at = 0;
}

abbrev own_number : PhoneNumber
own_number = record {
  id = "n1";
  user_id = "u1";
  number = "+15550001";
  provider_sid = "sid1";
  provider = "telnyx";
  country_code = "US";
  capabilities = record { voice = true; sms = true; mms = true };
  status = NumberStatus.active;
  monthly_cost = 100;
  released_at = none;
}

abbrev pro : Plan
pro = record {
  id = "p1";
  name = "pro";
  max_numbers = 5;
  included_minutes = 500;
  included_sms = 1000;
  included_mms = 0;
  power_dialer_enabled = true;
  monthly_price = 5000;
}

abbrev subscribed : Subscription
subscribed = record {
  user_id = "u1";
  plan_id = "p1";
  stripe_subscription_id = none;
  status = SubscriptionStatus.active;
  period_start = none;
  period_end = none;
  canceled_at = none;
}

abbrev campaign : Campaign
campaign = new_campaign 0 "c1" "u1" settings 1

abbrev tables : Store
tables = record {
  campaigns = campaign ∷ [];
  contacts = [];
  dnc = blocked ∷ [];
  numbers = own_number ∷ [];
  subscriptions = subscribed ∷ [];
  plans = pro ∷ [];
  requests = [];
  events = [];
}

abbrev report : Report
report = record {
  total = 4;
  valid = 1;
  invalid =
      record { row = 4; reason = invalid_e164 "5550004" }
      ∷ record { row = 5; reason = phone_empty }
      ∷ [];
  dnc_skipped = 1;
}

validate-accounts_example :
    (report.valid + length report.invalid + report.dnc_skipped ≡ length file)
    × (report.total ≡ length file)
    × (length file ≤ 100000)
    × (1 ≤ report.valid)
unfolding validate checked column_of find_column check_rows check_row cell phone_of has_phone trim
    trim_start trim_end lower_equals is_e164
validate-accounts_example = validate-accounts file ("+15550003" ∷ []) report refl

create_campaign-total_example :
    (added : List CampaignContact) × ((create_campaign 0 "c2" "u1" settings
        (some file)
        tables).1.contacts
      ≡ [] ++ added)
    × (length added ≡ 1)
    × All (IsCallable "c2" (dnc_phones "u1" tables.dnc)) added
unfolding create_campaign new_campaign dnc_phones validate checked column_of find_column check_rows
    check_row cell phone_of has_phone trim trim_start trim_end lower_equals is_e164
create_campaign-total_example =
    create_campaign-total 0 "c2" "u1" settings (some file) tables
      (new_campaign 0 "c2" "u1" settings 1) report refl

start_campaign-Startable_example :
    (c : Startable (λ r. true) "u1" "c1" tables) × ((start_campaign
        (λ r. true)
        10
        "u1"
        "c1"
        tables).1
      ≡ record tables {
        campaigns =
            update_where
              (λ k. k.id == "c1")
              (λ k. record k { status = CampaignStatus.running; started_at = some 10 })
              tables.campaigns;
        requests = insert_row (Request.create c.campaign c.leads) [];
      })
unfolding start_campaign find_campaign new_campaign find_own_active plan_of find_subscription
    find_plan pending_leads
start_campaign-Startable_example =
    start_campaign-Startable (λ r. true) 10 "u1" "c1" tables CampaignStatus.running refl

abbrev done : Progress
done = record { dialed = 1; answered = 1; failed = 0; busy = 0; no_answer = 0; remaining = 0 }

handle_progress_callback-reported_example :
    (is_ok (handle_progress_callback 10 "c1" done tables).0 ≡ true)
    × (find_id "c1" (handle_progress_callback 10 "c1" done tables).1.campaigns
        ≡ some (reported 10 done campaign))
    × ((handle_progress_callback 10 "c1" done tables).1.events
        ≡ Event.progress "c1" done ∷ Event.complete "c1" done ∷ [])
unfolding find_id new_campaign
handle_progress_callback-reported_example =
    handle_progress_callback-reported 10 "c1" done tables campaign refl
