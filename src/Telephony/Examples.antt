-- ===== src/Telephony/Examples.antt =====
-- Requests of Twilio on a small store.
use callnow.Calling
use callnow.Numbers
use callnow.Messaging
use callnow.Base.{
  String, [], ◌∷◌, none, some, true, refl, ◌≡◌, ◌==◌, Bool, err, forbidden_exception, forbidden, ok,
  Option, inr,
}
use callnow.Telephony.{RawWebhook, Form, validate_webhook_signature}
use callnow.Calling.{Call, outbound, find_call}
use callnow.Numbers.{Provider}
use callnow.Telephony.Endpoints.{
  voice_endpoint, call_status_endpoint, voicemail_endpoint, sms_endpoint, sms_status_endpoint,
}
use callnow.Calling.Status.{report_status}
use callnow.Telephony.Laws.{endpoints-unsigned}
use callnow.Telephony.Payload.{Payload}
use callnow.Calling.Voice.{VoicemailBody}
use callnow.Telephony.Telnyx.{TelnyxWebhook, telnyx_status_endpoint}
use callnow.Telephony.TelnyxLaws.{hangup_body, telnyx_status_endpoint-forged}

abbrev accept : String → String → Form → Bool
accept signature url body = signature == "good"

abbrev completed : RawWebhook
completed = record {
  body = ("CallSid", "CA1") ∷ ("CallStatus", "completed") ∷ [];
  signature = some "good";
  forwarded_proto = none;
  forwarded_host = none;
  host = some "api.example.org";
  original_url = some "/webhooks/twilio/voice/status";
}

abbrev forged : RawWebhook
forged = record completed { signature = some "bad" }

abbrev on_line : Call
on_line = record {
  id = "k1";
  user_id = none;
  provider_call_sid = some "CA1";
  provider = "twilio";
  from_number = "+15550001";
  to_number = "+15550009";
  direction = outbound;
  status = "in-progress";
  duration_seconds = 0;
  cost = none;
  started_at = some 1000;
  ended_at = none;
  created_at = 1000;
}

abbrev no_numbers : callnow.Numbers.Store
no_numbers = record {
  numbers = [];
  subscriptions = [];
  plans = [];
  cache = [];
  asked = [];
  released_sids = [];
}

abbrev calls : callnow.Calling.Store
calls = record {
  numbers = no_numbers;
  users = [];
  calls = on_line ∷ [];
  voicemails = [];
  tokens = [];
  events = [];
}

abbrev inbox : callnow.Messaging.Store
inbox = record {
  numbers = no_numbers;
  conversations = [];
  messages = [];
  counts = [];
  dnc = [];
  outbox = [];
  events = [];
}

abbrev provider : Provider
provider = record {
  name = "twilio";
  provision_number = λ number. none;
  release_number = λ sid. true;
}

endpoints-unsigned_example :
    (voice_endpoint accept provider true 5 "k2" "twilio" forged calls
      ≡ (err (forbidden_exception forbidden), calls))
    × (call_status_endpoint accept 5 "k2" forged calls
        ≡ (err (forbidden_exception forbidden), calls))
    × (voicemail_endpoint accept none 5 "k2" none forged calls
        ≡ (err (forbidden_exception forbidden), calls))
    × (sms_endpoint accept provider true 5 "c1" "m1" "d1" forged inbox
        ≡ (err (forbidden_exception forbidden), inbox))
    × (sms_status_endpoint accept forged inbox ≡ (err (forbidden_exception forbidden), inbox))
unfolding validate_webhook_signature
endpoints-unsigned_example =
    endpoints-unsigned accept provider true none 5 "k2" "twilio" "c1" "m1" "d1" none forged calls
      inbox (inr (inr ("bad", refl, refl)))

-- a library that cannot read the key
abbrev throwing : String → String → Payload → String → Option Bool
throwing key timestamp body signature = none

abbrev no_recording : VoicemailBody
no_recording = record {
  recording_url = none;
  recording_duration = none;
  call_sid = none;
  from = none;
}

telnyx_status_endpoint-forged_example :
    let r : TelnyxWebhook = record {
      body = hangup_body "CA1";
      signature = some "x";
      timestamp = some "y";
    } in
    let after = telnyx_status_endpoint throwing "key" 61000 "v1" no_recording r calls in
    (after.0 ≡ ok true)
    × (find_call "CA1" after.1.calls ≡ some (report_status 61000 "completed" on_line))
unfolding find_call
telnyx_status_endpoint-forged_example =
    telnyx_status_endpoint-forged throwing "key" 61000 "v1" "CA1" "x" "y" no_recording calls on_line
      refl refl refl refl refl
