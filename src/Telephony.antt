-- ===== src/Telephony.antt =====
-- backend/src/telephony: what the provider for Twilio reads from a webhook
-- (providers/twilio.provider.ts with status-maps/twilio.json) and the guard before the webhooks
-- (guards/webhook-signature.guard.ts). The body is the form's fields, each a text.
pub mod Endpoints
pub mod Payload
pub mod Telnyx
pub mod TelnyxLaws
pub mod TelnyxClient
pub mod TelnyxRequests
pub mod CallControl
pub mod TwilioClient
pub mod TwilioRequests
pub mod Search
pub mod Bandwidth
pub mod Laws
mod Examples
mod ClientExamples
use Prim.Native.String
use Prim.Native.String.{slice, String, []}
use Prim.Native.Char.{code}
use callnow.Base.{
  ℕ, List, Option, String, ◌∷◌, Bool, [], if◌then◌else◌, none, or_text, some, ◌*◌, false, leb, suc,
  truthy?, ◌+◌, ◌==◌, ◌&&◌, ◌-◌, truthy, zero,
}
use callnow.Calling.Voice.{InboundCall}
use callnow.Messaging.Webhook.{InboundMessage}
use callnow.Dialer.Text.{trim_start, is_digit, decimal_text, decimal}

abbrev pub Form : Type 0
Form = List (String × String)

pub record RawWebhook : Type 0 where
  pub body : Form
  pub signature : Option String
  pub forwarded_proto : Option String
  pub forwarded_host : Option String
  pub host : Option String
  pub original_url : Option String

pub data Resource : Type 0 where
  message call : Resource

-- `NormalizedStatusEvent`, but for its time
pub record StatusEvent : Type 0 where
  pub provider_sid : String
  pub resource_type : Resource
  pub status : String
  pub error_code : Option String

unfoldable pub field : String → Form → Option String
field k [] = none
field k ((j, v) ∷ fs) = if j == k then some v else field k fs

-- `x ?? d`
abbrev pub or_default : Option String → String → String
or_default none d = d
or_default (some s) d = s

-- the table of status-maps/twilio.json
abbrev pub status_map : Resource → Form
status_map message =
    ("queued", "queued")
    ∷ ("sent", "sent")
    ∷ ("delivered", "delivered")
    ∷ ("undelivered", "failed")
    ∷ ("failed", "failed")
    ∷ ("accepted", "sent")
    ∷ ("sending", "sent")
    ∷ ("receiving", "sent")
    ∷ ("received", "delivered")
    ∷ []
status_map call =
    ("queued", "initiated")
    ∷ ("initiated", "initiated")
    ∷ ("ringing", "ringing")
    ∷ ("in-progress", "in-progress")
    ∷ ("answered", "in-progress")
    ∷ ("completed", "completed")
    ∷ ("busy", "busy")
    ∷ ("failed", "failed")
    ∷ ("no-answer", "no-answer")
    ∷ ("canceled", "failed")
    ∷ []

-- `toLowerCase`, of the ASCII letters, which are all that a status has
unfoldable pub to_lower_case : String → String
to_lower_case String.[] = ""
to_lower_case (String.◌∷◌ c s) =
    let rest = to_lower_case s in
    if leb 65 (code c) && leb (code c) 90
    then String.◌++◌ (slice "abcdefghijklmnopqrstuvwxyz" (code c - 65) (code c - 64)) rest
    else String.◌∷◌ c rest

unfoldable pub normalize_status : String → Resource → String
normalize_status raw r = or_default (field raw (status_map r)) (to_lower_case raw)

-- the digits that a text starts with, after the number so far
unfoldable pub leading_digits : ℕ → String → ℕ
leading_digits n String.[] = n
leading_digits n (String.◌∷◌ c s) =
    let more = leading_digits (n * 10 + (code c - b'0')) s in if is_digit (code c) then more else n

abbrev pub starts_digit : String → Bool
starts_digit String.[] = false
starts_digit (String.◌∷◌ c s) = is_digit (code c)

-- `parseInt(s, 10)` of a text that has no sign: `none` for NaN
unfoldable pub parse_int : String → Option ℕ
parse_int s = if starts_digit (trim_start s) then some (leading_digits 0 (trim_start s)) else none

-- the loop over `MediaUrl0`, `MediaUrl1` and so on: `n` more from `i`
unfoldable pub media_from : Form → ℕ → ℕ → List String
media_from body i zero = []
media_from body i (suc n) =
    let url = or_default (field (String.◌++◌ "MediaUrl" (decimal_text (decimal i))) body) "" in
    let rest = media_from body (i + 1) n in if truthy url then url ∷ rest else rest

abbrev pub or_zero : Option ℕ → ℕ
or_zero none = 0
or_zero (some n) = n

unfoldable pub media_count : Form → ℕ
media_count body = or_zero (parse_int (or_default (field "NumMedia" body) "0"))

unfoldable pub parse_inbound_message_webhook : RawWebhook → InboundMessage
parse_inbound_message_webhook r = record {
  provider_message_sid = or_default (field "MessageSid" r.body) "";
  from = or_default (field "From" r.body) "";
  to = or_default (field "To" r.body) "";
  body = or_default (field "Body" r.body) "";
  media_urls = media_from r.body 0 (media_count r.body);
}

unfoldable pub parse_inbound_call_webhook : RawWebhook → InboundCall
parse_inbound_call_webhook r = record {
  provider_call_sid = or_default (field "CallSid" r.body) "";
  from = or_default (field "From" r.body) "";
  to = or_default (field "To" r.body) "";
}

abbrev pub error_code_of : Form → Option String
error_code_of body = if truthy? (field "ErrorCode" body) then field "ErrorCode" body else none

abbrev pub message_event : Form → StatusEvent
message_event body = record {
  provider_sid = or_default (field "MessageSid" body) "";
  resource_type = message;
  status =
      normalize_status
        (or_default (field "MessageStatus" body) (or_default (field "SmsStatus" body) "")) message;
  error_code = error_code_of body;
}

-- A call without a status is the text of undefined.
abbrev pub call_event : Form → String → StatusEvent
call_event body sid = record {
  provider_sid = sid;
  resource_type = call;
  status = normalize_status (or_default (field "CallStatus" body) "undefined") call;
  error_code = error_code_of body;
}

abbrev pub event_of : Form → Option String → StatusEvent
event_of body none = message_event body
event_of body (some sid) = call_event body sid

unfoldable pub parse_status_callback : RawWebhook → StatusEvent
parse_status_callback r = event_of r.body (field "CallSid" r.body)

-- `${proto}://${host}${originalPath}`
unfoldable pub signed_url : RawWebhook → String
signed_url r = String.◌++◌ (or_text r.forwarded_proto "https") (
    String.◌++◌ "://" (
      String.◌++◌ (or_text r.forwarded_host (or_text r.host "localhost"))
        (or_text r.original_url "/")))

-- `validate_request` is the Twilio library's, with the account's token: the signature, the address
-- and the fields; false where it throws.
unfoldable pub validate_webhook_signature : (String → String → Form → Bool) → RawWebhook → Bool
unfolding signed_url
validate_webhook_signature validate_request r =
    truthy? r.signature && validate_request (or_text r.signature "") (signed_url r) r.body
