-- ===== src/Telephony/TwilioRequests.antt =====
-- backend/src/telephony/providers/twilio.provider.ts: the operations of the provider for Twilio, by
-- what they ask of the Twilio library.
use Prim.Native.String.{String, [], ◌∷◌, slice, len}
use callnow.Telephony.Payload.{string}
use text.Mathlib.Text.{starts_with}
use callnow.Telephony.CallControl.{
  CallControl, reject, hangup, redirect, empty, dial_client, dial_number,
}
use callnow.Telephony.TelnyxRequests.{
  CallParams, SendParams, Sent, WebhookConfig, ProvisionedNumber, webhook_url,
}
use callnow.Base.{
  ℕ, Bool, List, String, Option, Action, [], exists_where, false, if◌then◌else◌, none, some, ◌∷◌,
  or_text, truthy, ◌==◌, ◌>>=◌, pure, ◌||◌, map, throw, fault,
}
use callnow.Telephony.TelnyxClient.{AvailableNumber, NumberSearch, limit_or, join}
use callnow.Telephony.TwilioClient.{
  list_local, create_number, update_number, remove_number, create_message, create_call,
  fetch_recording, list_transcriptions, client_target, number_target, dial, reject_call,
  hang_up_call, say_nothing, redirect_to, SearchOptions, TwilioNumber, WebhookUrls, Verb,
  TwilioRequest, TwilioClient, asks,
}

abbrev pub bool_or_false : Option Bool → Bool
bool_or_false none = false
bool_or_false (some b) = b

abbrev pub has_text : String → List String → Bool
has_text c = exists_where (λ d. d == c)

abbrev pub non_empty : Option String → Option String
non_empty none = none
non_empty (some s) = if truthy s then some s else none

unfoldable pub search_options : NumberSearch → SearchOptions
search_options params = record {
  limit = limit_or params.limit 20;
  area_code = non_empty params.area_code;
  sms_enabled = has_text "sms" params.capabilities;
  mms_enabled = has_text "mms" params.capabilities;
  voice_enabled = has_text "voice" params.capabilities;
}

abbrev pub available_from : String → TwilioNumber → AvailableNumber
available_from country_code n = record {
  number = string n.phone_number;
  locality = string (or_text n.locality "");
  region = string (or_text n.region "");
  country_code = or_text n.iso_country country_code;
  capabilities = record {
    voice = bool_or_false n.voice_enabled;
    sms = bool_or_false n.sms_enabled;
    mms = bool_or_false n.mms_enabled;
  };
  monthly_cost = or_text n.monthly_rental_amount "1.0";
}

unfoldable pub search_twilio_numbers :
    TwilioClient → NumberSearch → Action (List TwilioRequest) (List AvailableNumber)
unfolding search_options
search_twilio_numbers client params = do
  let country_code = or_text (some params.country_code) "US"
  found ← asks client.found (list_local country_code (search_options params))
  pure (map (available_from country_code) found)

abbrev pub webhook_urls : WebhookConfig → WebhookUrls
webhook_urls config = record {
  voice_url = webhook_url config "/voice";
  sms_url = webhook_url config "/sms";
  status_callback = webhook_url config "/voice/status";
}

unfoldable pub provision_twilio_number :
    TwilioClient → String → WebhookConfig → Action (List TwilioRequest) ProvisionedNumber
provision_twilio_number client wanted config = do
  n ← asks client.bought (create_number wanted (webhook_urls config))
  pure (record {
    provider_sid = string n.sid;
    number = n.phone_number;
    friendly_name = n.friendly_name;
    country_code = or_text n.iso_country "US";
    capabilities = record {
      voice = bool_or_false n.voice;
      sms = bool_or_false n.sms;
      mms = bool_or_false n.mms;
    };
  })

unfoldable pub release_twilio_number :
    TwilioClient → String → Action (List TwilioRequest) (Unit {0})
release_twilio_number client sid = asks client.done (remove_number sid)

unfoldable pub configure_twilio_webhooks :
    TwilioClient → String → WebhookConfig → Action (List TwilioRequest) (Unit {0})
configure_twilio_webhooks client sid config =
    asks client.done (update_number sid (webhook_urls config))

abbrev pub media_if_some : List String → Option (List String)
media_if_some [] = none
media_if_some (u ∷ us) = some (u ∷ us)

unfoldable pub send_twilio_message :
    TwilioClient → SendParams → Action (List TwilioRequest) (String × Option String)
send_twilio_message client params = asks client.sent (
    create_message (record {
      from = params.from;
      to = params.to;
      body = params.body;
      media_url = media_if_some params.media_urls;
      status_callback = non_empty params.status_callback;
    }))

-- the token and its seconds
unfoldable pub generate_twilio_token :
    TwilioClient → String → Action (List TwilioRequest) (String × ℕ)
generate_twilio_token client identity =
    if client.api_key == "" || client.api_secret == ""
    then throw fault
    else pure (
      client.to_jwt client.account_sid client.api_key client.api_secret identity 3300
          client.twiml_app_sid,
      3300,
    )

-- a verb where the text that it needs is there
abbrev pub verbs_if : Option String → (String → Verb) → List Verb
verbs_if none verb = []
verbs_if (some s) verb = if truthy s then verb s ∷ [] else []

unfoldable pub twilio_call_control : CallControl → List Verb
twilio_call_control action = elim action.action_type [
  | dial_client ↦
      verbs_if action.client_id
        (λ s. dial (limit_or action.timeout 30) action.voicemail_redirect (client_target s))
  | dial_number ↦
      verbs_if action.dialled_number
        (λ s. dial (limit_or action.timeout 30) action.voicemail_redirect (number_target s))
  | reject ↦ reject_call ∷ []
  | hangup ↦ hang_up_call ∷ []
  | redirect ↦ verbs_if action.redirect_url redirect_to
  | empty ↦ say_nothing ∷ []
]

abbrev pub callback_events : Option String → List String
callback_events none = []
callback_events (some s) =
    if truthy s then "initiated" ∷ "ringing" ∷ "answered" ∷ "completed" ∷ [] else []

abbrev pub sent_as : String → Option String → Sent
sent_as sid status = record { provider_sid = string sid; status = string (or_text status "queued") }

unfoldable pub initiate_twilio_call : TwilioClient → CallParams → Action (List TwilioRequest) Sent
unfolding twilio_call_control
initiate_twilio_call client params = do
  created ← asks client.sent (
      create_call (record {
        from = params.from;
        to = params.to;
        twiml = twilio_call_control (record {
          action_type = dial_client;
          client_id = params.client_identity;
          dialled_number = none;
          timeout = some (limit_or params.timeout 30);
          voicemail_redirect = none;
          redirect_url = none;
        });
        status_callback = non_empty params.status_callback;
        status_callback_events = callback_events params.status_callback;
        recorded = params.recorded;
        machine_detection = non_empty params.machine_detection;
      }))
  pure (sent_as created.0 created.1)

-- `replace('.json', '.mp3')`: the first one
unfoldable pub mp3_of : String → String
mp3_of String.[] = ""
mp3_of (String.◌∷◌ c s) =
    if starts_with (String.◌∷◌ c s) ".json"
    then join ".mp3" (slice (String.◌∷◌ c s) 5 (len (String.◌∷◌ c s)))
    else String.◌∷◌ c (mp3_of s)

-- the address, and the text of the seconds, which `parseInt` reads
unfoldable pub get_twilio_recording :
    TwilioClient → String → Action (List TwilioRequest) (String × String)
unfolding mp3_of
get_twilio_recording client sid = do
  r ← asks client.recording (fetch_recording sid)
  pure (mp3_of r.0, or_text r.1 "0")

abbrev pub first_text : List (Option String) → String
first_text [] = ""
first_text (t ∷ ts) = or_text t ""

unfoldable pub transcribe_recording : TwilioClient → String → Action (List TwilioRequest) String
transcribe_recording client sid = do
  ts ← asks client.transcriptions (list_transcriptions sid)
  pure (first_text ts)
