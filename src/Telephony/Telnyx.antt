-- ===== src/Telephony/Telnyx.antt =====
-- backend/src/telephony/providers/telnyx.provider.ts with status-maps/telnyx.json: what the provider
-- for Telnyx reads from a webhook, and its check of the signature.
use text.Mathlib.Text.{starts_with}
use Prim.Native.String.{String, slice, [], len}
use Prim.Native.Nat.{ℕ}
use callnow.Telephony.Payload.{
  Items, Payload, entries, items, object_body, or_else, to_text, entry_of, property, first_item,
  nothing, no_items, flag, has_property, is_set, missing, string, item, number,
}
use callnow.Base.{
  Option, String, ℕ, Bool, List, if◌then◌else◌, none, Action, map_option, some, true, ◌==◌, ◌∷◌, [],
  not, throw, fault, forbidden_exception, truthy?, forbidden, ◌||◌, false, or_text,
}
use callnow.Calling.Voice.{InboundCall, VoicemailBody}
use callnow.Telephony.{Resource, Form, StatusEvent, or_default, call, field, message, to_lower_case}
use callnow.Calling.Status.{handle_call_status}

pub record TelnyxWebhook : Type 0 where
  pub body : Payload
  pub signature : Option String
  pub timestamp : Option String

-- `body.data?.payload || body.data || body`
abbrev pub payload_of : Payload → Payload
payload_of body =
    or_else (property "payload" (property "data" body)) (or_else (property "data" body) body)

-- `typeof x === 'object' ? x?.phone_number : x`
abbrev pub phone_number_of : Payload → Payload
phone_number_of (entries es) = entry_of "phone_number" es
phone_number_of (items xs) = missing
phone_number_of nothing = missing
phone_number_of missing = missing
phone_number_of (flag b) = flag b
phone_number_of (number n) = number n
phone_number_of (string s) = string s

-- the recipient: the first of a list, or the one that there is; `none` where it throws
abbrev pub recipient_of : Payload → Payload
recipient_of (items xs) =
    or_else (property "phone_number" (first_item (items xs))) (first_item (items xs))
recipient_of (entries es) = phone_number_of (entries es)
recipient_of nothing = missing
recipient_of missing = missing
recipient_of (flag b) = flag b
recipient_of (number n) = number n
recipient_of (string s) = string s

-- `m.url`, which throws of null and undefined
abbrev pub url_of : Payload → Option Payload
url_of missing = none
url_of nothing = none
url_of (entries es) = some (entry_of "url" es)
url_of (flag b) = some missing
url_of (number n) = some missing
url_of (string s) = some missing
url_of (items xs) = some missing

abbrev pub add_url : Option Payload → Option (List Payload) → Option (List Payload)
add_url none rest = none
add_url (some url) rest = if is_set url then map_option (λ urls. url ∷ urls) rest else rest

unfoldable pub media_urls : Items → Option (List Payload)
media_urls no_items = some []
media_urls (item m ms) = add_url (url_of m) (media_urls ms)

abbrev pub media_of : Payload → Option (List Payload)
media_of (items ms) = media_urls ms
media_of missing = some []
media_of nothing = some []
media_of (flag b) = some []
media_of (number n) = some []
media_of (string s) = some []
media_of (entries es) = some []

-- `NormalizedInboundMessage`, but for its time
pub record TelnyxMessage : Type 0 where
  pub provider_message_sid : String
  pub from : String
  pub to : String
  pub body : String
  pub media_urls : List Payload

-- `String(x || '')`
abbrev pub text_or_empty : Payload → String
text_or_empty x = to_text (or_else x (string ""))

abbrev pub message_with : Payload → Payload → List Payload → TelnyxMessage
message_with body fields urls = record {
  provider_message_sid =
      text_or_empty (or_else (property "id" fields) (property "id" (property "data" body)));
  from = text_or_empty (phone_number_of (property "from" fields));
  to = text_or_empty (recipient_of (property "to" fields));
  body = text_or_empty (or_else (property "text" fields) (property "body" fields));
  media_urls = urls;
}

unfoldable pub parse_inbound_message : TelnyxWebhook → Option TelnyxMessage
parse_inbound_message r =
    let body = object_body r.body in
    let fields = payload_of body in
    map_option (message_with body fields) (media_of (property "media" fields))

unfoldable pub parse_inbound_call : TelnyxWebhook → InboundCall
parse_inbound_call r =
    let fields = payload_of (object_body r.body) in
    record {
      provider_call_sid = text_or_empty (
          or_else (property "call_control_id" fields)
            (or_else (property "call_leg_id" fields) (property "id" fields)));
      from = text_or_empty (property "from" fields);
      to = text_or_empty (property "to" fields);
    }

-- the table of status-maps/telnyx.json
abbrev pub telnyx_status_map : Resource → Form
telnyx_status_map message =
    ("queued", "queued")
    ∷ ("sending", "sent")
    ∷ ("sent", "sent")
    ∷ ("delivered", "delivered")
    ∷ ("undelivered", "failed")
    ∷ ("failed", "failed")
    ∷ ("received", "delivered")
    ∷ []
telnyx_status_map call =
    ("call.initiated", "initiated")
    ∷ ("call.ringing", "ringing")
    ∷ ("call.answered", "in-progress")
    ∷ ("call.hangup", "completed")
    ∷ ("call.machine.detection.ended", "in-progress")
    ∷ ("initiated", "initiated")
    ∷ ("ringing", "ringing")
    ∷ ("answered", "in-progress")
    ∷ ("completed", "completed")
    ∷ ("busy", "busy")
    ∷ ("failed", "failed")
    ∷ ("no_answer", "no-answer")
    ∷ ("canceled", "failed")
    ∷ []

-- `replace(/^(call\.|message\.)/, '')`
unfoldable pub without_kind : String → String
without_kind s =
    if starts_with s "call."
    then slice s 5 (len s)
    else (if starts_with s "message." then slice s 8 (len s) else s)

unfoldable pub normalize_telnyx_status : String → Resource → String
unfolding without_kind
normalize_telnyx_status raw r =
    or_default (field raw (telnyx_status_map r)) (without_kind (to_lower_case raw))

-- Whether the event is one of a call: `none` where the test throws. The first `true` decides.
abbrev pub or_throws : Option Bool → Option Bool → Option Bool
or_throws none later = none
or_throws (some b) later = if b then some true else later

unfoldable pub is_call_event : String → Payload → Option Bool
is_call_event event_type fields =
    or_throws (some (starts_with event_type "call."))
      (or_throws (has_property "call_control_id" fields) (has_property "call_leg_id" fields))

abbrev pub telnyx_event : String → Payload → Bool → StatusEvent
telnyx_event event_type fields is_call =
    let resource = if is_call then call else message in
    let code = property "code" (first_item (property "errors" fields)) in
    let raw = text_or_empty (
      or_else (string event_type) (
        or_else (property "status" (first_item (property "to" fields)))
          (property "status" fields))) in
    record {
      provider_sid =
          if is_call
          then text_or_empty
              (or_else (property "call_control_id" fields) (property "call_leg_id" fields))
          else text_or_empty (property "id" fields);
      resource_type = resource;
      status = normalize_telnyx_status raw resource;
      error_code = if is_set code then some (to_text code) else none;
    }

unfoldable pub parse_telnyx_status : TelnyxWebhook → Option StatusEvent
unfolding is_call_event
parse_telnyx_status r =
    let body = object_body r.body in
    let event_type = text_or_empty (property "event_type" (property "data" body)) in
    map_option (telnyx_event event_type (payload_of body))
      (is_call_event event_type (payload_of body))

-- `verify` is the library's, with the key, the time, the body and the signature; `none` is a throw.
abbrev pub verified : Option Bool → Bool
verified none = true
verified (some b) = b

unfoldable pub validate_telnyx_signature :
    (String → String → Payload → String → Option Bool) → String → TelnyxWebhook → Bool
validate_telnyx_signature verify public_key r =
    if public_key == ""
    then true
    else (if not (truthy? r.signature) || not (truthy? r.timestamp)
        then false
        else verified (verify public_key (or_text r.timestamp "") r.body (or_text r.signature "")))

-- `canActivate` before the handler of the status of a call; the parser may throw.
abbrev pub handle_event :
    ℕ → String → VoicemailBody → Option StatusEvent → Action callnow.Calling.Store Bool
handle_event now id voicemail none = throw fault
handle_event now id voicemail (some e) = handle_call_status now id e.provider_sid e.status voicemail

unfoldable pub telnyx_status_endpoint :
    (String → String → Payload → String → Option Bool)
    → String
    → ℕ
    → String
    → VoicemailBody
    → TelnyxWebhook
    → Action callnow.Calling.Store Bool
telnyx_status_endpoint verify public_key now id voicemail r s =
    if validate_telnyx_signature verify public_key r
    then handle_event now id voicemail (parse_telnyx_status r) s
    else throw (forbidden_exception forbidden) s
