-- ===== src/Telephony/Bandwidth.antt =====
-- backend/src/telephony/providers/bandwidth.provider.ts with status-maps/bandwidth.json, which stands in
-- for Bandwidth and asks nothing of it, and the choice of a provider (telephony.module.ts).
use Prim.Native.String.{String, []}
use callnow.Telephony.Payload.{
  Payload, nothing, missing, string, flag, number, items, entries, no_items, first_item, to_text,
  object_body, or_else, property, is_set, has_property,
}
use callnow.Telephony.CallControl.{
  CallControl, reject, hangup, redirect, empty, dial_client, dial_number, xml_start,
}
use callnow.Telephony.{
  message, call, InboundCall, Resource, StatusEvent, to_lower_case, Form, decimal_text, or_default,
  field,
}
use callnow.Base.{
  ℕ, Bool, List, String, Option, none, if◌then◌else◌, map_option, or_text, some, true, ◌==◌, ◌∷◌,
  [],
}
use callnow.Telephony.TelnyxClient.{AvailableNumber, NumberSearch, join, bind_option}
use callnow.Telephony.TelnyxRequests.{
  CallParams, ProvisionedNumber, SendParams, Sent, provisioned_as, stamped,
}
use callnow.Telephony.Telnyx.{TelnyxWebhook, text_or_empty, or_throws}
use callnow.Calling.Voice.{InboundCall}
use callnow.Dialer.Text.{decimal_text, decimal, includes_text}

abbrev bandwidth_number : String → String → String → AvailableNumber
bandwidth_number country_code area_code ending = record {
  number = string (join "+1" (join area_code ending));
  locality = string "Raleigh";
  region = string "NC";
  country_code = country_code;
  capabilities = record { voice = true; sms = true; mms = true };
  monthly_cost = "0.85";
}

unfoldable search_bandwidth_numbers : NumberSearch → List AvailableNumber
search_bandwidth_numbers params =
    let country_code = or_text (some params.country_code) "US" in
    let area_code = or_text params.area_code "919" in
    bandwidth_number country_code area_code "5550201"
    ∷ bandwidth_number country_code area_code "5550202"
    ∷ []

unfoldable provision_bandwidth_number : ℕ → String → ProvisionedNumber
provision_bandwidth_number now wanted =
    provisioned_as wanted "Bandwidth Number" (stamped "bw_order_" now)

-- No message is sent and no call is made.
unfoldable send_bandwidth_message : ℕ → SendParams → Sent
send_bandwidth_message now params = record {
  provider_sid = stamped "bw_msg_" now;
  status = string "queued";
}

unfoldable initiate_bandwidth_call : ℕ → CallParams → Sent
initiate_bandwidth_call now params = record {
  provider_sid = stamped "bw_call_" now;
  status = string "initiated";
}

unfoldable generate_bandwidth_token : ℕ → String → String × ℕ
generate_bandwidth_token now identity =
    (join "bw_token_" (join identity (join "_" (decimal_text (decimal now)))), 3600)

unfoldable get_bandwidth_recording : String → String × ℕ
get_bandwidth_recording sid = (join "https://api.bandwidth.com/recordings/" (join sid ".mp3"), 30)

abbrev bxml : String → String
bxml inner = join xml_start (join "<Bxml>" (join inner "</Bxml>"))

unfoldable bandwidth_call_control : CallControl → String
bandwidth_call_control action = elim action.action_type [
  | dial_client ↦ bxml "<SpeakSentence>Connecting call</SpeakSentence>"
  | dial_number ↦
      bxml (
        join "<Dial><PhoneNumber>"
          (join (or_text action.dialled_number "") "</PhoneNumber></Dial>"))
  | reject ↦ bxml "<Hangup/>"
  | hangup ↦ bxml "<Hangup/>"
  | redirect ↦ bxml (join "<Redirect>" (join (or_text action.redirect_url "") "</Redirect>"))
  | empty ↦ join xml_start "<Bxml/>"
]

-- Every request is let through.
unfoldable validate_bandwidth_signature : TelnyxWebhook → Bool
validate_bandwidth_signature r = true

-- `Array.isArray(body) ? body[0] : body`
abbrev bandwidth_item : Payload → Payload
bandwidth_item (items xs) = first_item (items xs)
bandwidth_item (entries es) = entries es
bandwidth_item missing = missing
bandwidth_item nothing = nothing
bandwidth_item (flag b) = flag b
bandwidth_item (number n) = number n
bandwidth_item (string s) = string s

-- a value of which properties are read: `none` where that throws
abbrev present : Payload → Option Payload
present missing = none
present nothing = none
present (flag b) = some (flag b)
present (number n) = some (number n)
present (string s) = some (string s)
present (items xs) = some (items xs)
present (entries es) = some (entries es)

-- the first of a list of recipients, or the one that there is
abbrev first_recipient : Payload → Payload
first_recipient (items xs) = first_item (items xs)
first_recipient (entries es) = entries es
first_recipient missing = missing
first_recipient nothing = nothing
first_recipient (flag b) = flag b
first_recipient (number n) = number n
first_recipient (string s) = string s

-- `NormalizedInboundMessage`, but for its time, with the media as they come
pub record BandwidthMessage : Type 0 where
  pub provider_message_sid : String
  pub from : String
  pub to : String
  pub body : String
  pub media_urls : Payload

abbrev bandwidth_message : ℕ → Payload → BandwidthMessage
bandwidth_message now msg = record {
  provider_message_sid = to_text (or_else (property "id" msg) (stamped "bw_msg_" now));
  from = text_or_empty (property "from" msg);
  to = text_or_empty (first_recipient (property "to" msg));
  body = text_or_empty (property "text" msg);
  media_urls = or_else (property "media" msg) (items no_items);
}

-- After `item?.message || item`, the time is read of `item`, which is there wherever `msg` is.
unfoldable parse_bandwidth_message : ℕ → TelnyxWebhook → Option BandwidthMessage
parse_bandwidth_message now r =
    let x = bandwidth_item (object_body r.body) in
    map_option (bandwidth_message now) (present (or_else (property "message" x) x))

abbrev bandwidth_call : ℕ → Payload → InboundCall
bandwidth_call now x = record {
  provider_call_sid = to_text (or_else (property "callId" x) (stamped "bw_call_" now));
  from = text_or_empty (property "from" x);
  to = text_or_empty (property "to" x);
}

unfoldable parse_bandwidth_call : ℕ → TelnyxWebhook → Option InboundCall
parse_bandwidth_call now r =
    map_option (bandwidth_call now) (present (bandwidth_item (object_body r.body)))

-- the table of status-maps/bandwidth.json
abbrev bandwidth_status_map : Resource → Form
bandwidth_status_map message =
    ("QUEUED", "queued")
    ∷ ("SENDING", "sent")
    ∷ ("SENT", "sent")
    ∷ ("DELIVERED", "delivered")
    ∷ ("FAILED", "failed")
    ∷ ("DLR_EXPIRED", "failed")
    ∷ ("REJECTED", "failed")
    ∷ []
bandwidth_status_map call =
    ("initiated", "initiated")
    ∷ ("alerting", "ringing")
    ∷ ("answered", "in-progress")
    ∷ ("disconnected", "completed")
    ∷ []

-- A status that the map has not got is taken in lower case.
unfoldable normalize_bandwidth_status : String → Resource → String
normalize_bandwidth_status raw r =
    or_default (field raw (bandwidth_status_map r)) (to_lower_case raw)

abbrev bandwidth_event : String → Payload → Bool → StatusEvent
bandwidth_event event_type x is_call =
    let resource = if is_call then call else message in
    record {
      provider_sid =
          text_or_empty
            (or_else (property "callId" x) (or_else (property "messageId" x) (property "id" x)));
      resource_type = resource;
      status =
          normalize_bandwidth_status
            (text_or_empty (or_else (property "eventType" x) (property "status" x))) resource;
      error_code =
          if is_set (property "errorCode" x) then some (to_text (property "errorCode" x)) else none;
    }

abbrev status_of_item : Payload → Option StatusEvent
status_of_item x =
    let event_type = text_or_empty (property "eventType" x) in
    map_option (bandwidth_event event_type x)
      (or_throws (some (includes_text "call" event_type)) (has_property "callId" x))

unfoldable parse_bandwidth_status : TelnyxWebhook → Option StatusEvent
unfolding normalize_bandwidth_status
parse_bandwidth_status r =
    bind_option (present (bandwidth_item (object_body r.body))) status_of_item

pub data ProviderName : Type 0 where
  twilio vonage bandwidth plivo telnyx : ProviderName

-- `useFactory`: a name in any case; `none` where it throws
unfoldable select_provider : String → Option ProviderName
select_provider configured =
    let name = to_lower_case configured in
    if name == "twilio"
    then some twilio
    else (if name == "vonage"
        then some vonage
        else (if name == "bandwidth"
            then some bandwidth
            else (if name == "plivo"
                then some plivo
                else (if name == "telnyx" then some telnyx else none))))
