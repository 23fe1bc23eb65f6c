-- ===== src/Messaging/Examples.antt =====
-- Runs of the messaging service and of its webhook on a small store.
use callnow.Base.{[], none, true, ◌∷◌, ◌≡◌, refl, false}
use callnow.Numbers.{PhoneNumber, Provider, NumberStatus}
use callnow.Messaging.{Store}
use callnow.Messaging.Webhook.{receive, InboundMessage, is_opt_out, to_upper_case, upper}
use callnow.Dialer.Text.{codes}
use callnow.Messaging.Inbox.{receive-opt_out}
use callnow.Dialer.Text.{trim, trim_start, trim_end}
use callnow.Dialer.CsvValidator.{phone_of, cell}
use callnow.Dialer.Campaigns.{is_callable, dnc_phones}

abbrev own_number : PhoneNumber
own_number = record {
  id = "n1";
  user_id = "u1";
  number = "+15550001";
  provider_sid = "sid1";
  provider = "telnyx";
  country_code = "US";
  capabilities = record { voice = true; sms = true; mms = true };
  status = NumberStatus.active;
  monthly_cost = 100;
  released_at = none;
}

abbrev tables : Store
tables = record {
  numbers = record {
    numbers = own_number ∷ [];
    subscriptions = [];
    plans = [];
    cache = [];
    asked = [];
    released_sids = [];
  };
  conversations = [];
  messages = [];
  counts = ("u1", 1999) ∷ [];
  dnc = [];
  outbox = [];
  events = [];
}

abbrev provider : Provider
provider = record {
  name = "telnyx";
  provision_number = λ number. none;
  release_number = λ sid. true;
}

abbrev stop : InboundMessage
stop = record {
  provider_message_sid = "in1";
  from = "+15550002";
  to = "+15550001";
  body = " stop ";
  media_urls = [];
}

receive-opt_out_example :
    is_callable
      (dnc_phones "u1" (receive provider true 10 "c1" "m1" "d1" stop "u1" tables).1.dnc)
      "phone"
      (("phone", "+15550002") ∷ [])
    ≡ false
unfolding is_opt_out to_upper_case upper codes trim trim_start trim_end phone_of cell
receive-opt_out_example =
    receive-opt_out provider true 10 "c1" "m1" "d1" stop "u1" tables "phone"
      (("phone", "+15550002") ∷ []) refl refl
