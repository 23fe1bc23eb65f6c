-- ===== src/Telephony/Endpoints.antt =====
-- The webhooks as they are reached: the guard of
-- backend/src/telephony/guards/webhook-signature.guard.ts, the parser of the provider, and the handlers
-- of backend/src/calling/webhooks and backend/src/messaging/webhooks.
use callnow.Calling
use callnow.Messaging
use callnow.Base.{
  ℕ, String, Bool, Action, Option, or_text, if◌then◌else◌, throw, forbidden_exception, forbidden,
}
use callnow.Telephony.{
  RawWebhook, Form, field, parse_int, parse_inbound_message_webhook, parse_status_callback,
  validate_webhook_signature, parse_inbound_call_webhook,
}
use callnow.Calling.Voice.{VoiceBody, VoicemailBody, handle_voicemail, handle_inbound_call}
use callnow.Numbers.{Provider}
use callnow.Calling.{Control}
use callnow.Calling.Status.{handle_call_status}
use callnow.Messaging.Webhook.{handle_inbound_sms, handle_sms_status}

-- `canActivate` before a handler
abbrev pub guarded :
    {S A : Type 0} → (String → String → Form → Bool) → RawWebhook → Action S A → Action S A
guarded validate_request r handler s =
    if validate_webhook_signature validate_request r
    then handler s
    else throw (forbidden_exception forbidden) s

-- the fields of a request's body that the voice handlers read themselves
unfoldable pub voice_body : RawWebhook → VoiceBody
voice_body r = record {
  caller = field "Caller" r.body;
  from_header = field "From" r.body;
  from = field "from" r.body;
  to = field "to" r.body;
  to_header = field "To" r.body;
}

-- `parseInt((body.RecordingDuration as string) || '0', 10)`
unfoldable pub voicemail_body : RawWebhook → VoicemailBody
voicemail_body r = record {
  recording_url = field "RecordingUrl" r.body;
  recording_duration = parse_int (or_text (field "RecordingDuration" r.body) "0");
  call_sid = field "CallSid" r.body;
  from = field "From" r.body;
}

module _ (validate_request : String → String → Form → Bool) where
  unfoldable pub voice_endpoint :
      Provider → Bool → ℕ → String → String → RawWebhook → Action callnow.Calling.Store Control
  voice_endpoint p redis now id path r =
      guarded validate_request r
        (handle_inbound_call p redis now id path (voice_body r) (parse_inbound_call_webhook r))

  unfoldable pub call_status_endpoint : ℕ → String → RawWebhook → Action callnow.Calling.Store Bool
  call_status_endpoint now id r = guarded validate_request r (
      handle_call_status now id (parse_status_callback r).provider_sid
        (parse_status_callback r).status (voicemail_body r))

  unfoldable pub voicemail_endpoint :
      Option (String → Option String)
      → ℕ
      → String
      → Option String
      → RawWebhook
      → Action callnow.Calling.Store (Unit {0})
  voicemail_endpoint transcribe now id user_id r =
      guarded validate_request r (handle_voicemail transcribe now id (voicemail_body r) user_id)

  unfoldable pub sms_endpoint :
      Provider
      → Bool
      → ℕ
      → String
      → String
      → String
      → RawWebhook
      → Action callnow.Messaging.Store (Unit {0})
  sms_endpoint p redis now cid mid did r =
      guarded validate_request r
        (handle_inbound_sms p redis now cid mid did (parse_inbound_message_webhook r))

  unfoldable pub sms_status_endpoint : RawWebhook → Action callnow.Messaging.Store Bool
  sms_status_endpoint r = guarded validate_request r (
      handle_sms_status (record {
        provider_sid = (parse_status_callback r).provider_sid;
        status = (parse_status_callback r).status;
      }))
