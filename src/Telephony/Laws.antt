-- ===== src/Telephony/Laws.antt =====
-- What a webhook does to the tables, from the request as Twilio sends it.
use Prim.Native.String
use callnow.Calling
use callnow.Messaging
use callnow.Base.{
  ℕ, String, Bool, length, ◌≤◌, arith, suc, ◌+◌, Bool-cases, Option, truthy, ◌≡◌, false, true, err,
  some, forbidden_exception, forbidden, inl, ok, inr, refl, zero, if◌then◌else◌, none, or_text,
  ◌==◌, ◌⊎◌,
}
use callnow.Telephony.{
  RawWebhook, media_from, Form, parse_status_callback, normalize_status, validate_webhook_signature,
  or_default, field, decimal_text, call, signed_url,
}
use Prim.Native.String.{String}
use callnow.Telephony.Endpoints.{
  call_status_endpoint, voice_endpoint, voicemail_endpoint, sms_endpoint, sms_status_endpoint,
  voicemail_body,
}
use callnow.Calling.Status.{handle_call_status, report_status}
use callnow.Calling.{Call, find_call}
use callnow.Numbers.{Provider}
use callnow.Dialer.Text.{decimal_text, decimal}
use callnow.Calling.Laws.{set_call-find_call}
use callnow.Calling.Voice.{VoicemailBody}

normalize_status-completed : normalize_status "completed" call ≡ "completed"
unfolding normalize_status field
normalize_status-completed = refl

parse_status_callback-completed :
    (r : RawWebhook) (sid : String)
    → field "CallSid" r.body ≡ some sid
    → field "CallStatus" r.body ≡ some "completed"
    → ((parse_status_callback r).provider_sid ≡ sid)
      × ((parse_status_callback r).status ≡ "completed")
unfolding parse_status_callback normalize_status
parse_status_callback-completed r sid named reported =
    rw (named, reported) (refl, normalize_status-completed)

pub handle_call_status-completed :
    (now : ℕ) (id sid : String) (b : VoicemailBody) (s : callnow.Calling.Store) (c : Call)
    → find_call sid s.calls ≡ some c
    → let after = handle_call_status now id sid "completed" b s in
      (after.0 ≡ ok true) × (find_call sid after.1.calls ≡ some (report_status now "completed" c))
unfolding handle_call_status
handle_call_status-completed now id sid b s c found =
    rw found (refl, set_call-find_call now sid "completed" s.calls c found)

-- the address that a request was sent to: what a proxy before the server says, or else the server
abbrev pub address_with : String → String → String → String
address_with proto host path = String.◌++◌ proto (String.◌++◌ "://" (String.◌++◌ host path))

abbrev pub first_of : Option String → String → String
first_of none d = d
first_of (some s) d = if s == "" then d else s

abbrev pub address_of : RawWebhook → String
address_of r =
    address_with (first_of r.forwarded_proto "https")
      (first_of r.forwarded_host (first_of r.host "localhost")) (first_of r.original_url "/")

or_text-first_of : (o : Option String) (d : String) → or_text o d ≡ first_of o d
or_text-first_of none d = refl
or_text-first_of (some s) d = ground arith

signed_url-address_of : (r : RawWebhook) → signed_url r ≡ address_of r
unfolding signed_url
signed_url-address_of r =
    rw
      (
        or_text-first_of r.forwarded_proto "https",
        or_text-first_of r.host "localhost",
        or_text-first_of r.forwarded_host (first_of r.host "localhost"),
        or_text-first_of r.original_url "/",
      )
      refl

module _ (validate_request : String → String → Form → Bool) where
  -- What Twilio signs, and why it is not accepted: no signature, an empty one, or one that the library
  -- refuses for the address that the request was sent to and for its fields.
  abbrev pub IsUnsigned : RawWebhook → Type 0
  IsUnsigned r =
      (r.signature ≡ none)
      ⊎ (r.signature ≡ some "")
      ⊎ ((signature : String) × (r.signature ≡ some signature)
          × (validate_request signature (address_of r) r.body ≡ false))

  validate_webhook_signature-unsigned :
      (r : RawWebhook) → IsUnsigned r → validate_webhook_signature validate_request r ≡ false
  unfolding validate_webhook_signature
  validate_webhook_signature-unsigned r (inl absent) = ground (arith, absent)
  validate_webhook_signature-unsigned r (inr (inl empty)) = ground (arith, empty)
  validate_webhook_signature-unsigned r (inr (inr (signature, signed, refused))) =
      elim (Bool-cases (truthy signature)) [
        | inl full ↦ rw (signed, signed_url-address_of r, full) refused
        | inr blank ↦ rw (signed, blank) refl
      ]

  -- A request without a signature, or with one that the Twilio library refuses for the address
  -- that it was sent to and its fields, is answered with 403 by every webhook, and nothing is written.
  pub endpoints-unsigned :
      (p : Provider) (redis : Bool) (transcribe : Option (String → Option String)) (now : ℕ)
      (id path cid mid did : String) (user_id : Option String) (r : RawWebhook)
      (s : callnow.Calling.Store) (t : callnow.Messaging.Store)
      → IsUnsigned r
      → (voice_endpoint validate_request p redis now id path r s
          ≡ (err (forbidden_exception forbidden), s))
        × (call_status_endpoint validate_request now id r s
            ≡ (err (forbidden_exception forbidden), s))
        × (voicemail_endpoint validate_request transcribe now id user_id r s
            ≡ (err (forbidden_exception forbidden), s))
        × (sms_endpoint validate_request p redis now cid mid did r t
            ≡ (err (forbidden_exception forbidden), t))
        × (sms_status_endpoint validate_request r t ≡ (err (forbidden_exception forbidden), t))
  unfolding voice_endpoint call_status_endpoint voicemail_endpoint sms_endpoint sms_status_endpoint
  endpoints-unsigned p redis transcribe now id path cid mid did user_id r s t unsigned =
      rw (validate_webhook_signature-unsigned r unsigned) (refl, refl, refl, refl, refl)

  -- A signed report of Twilio that a call on record is completed ends the call in the table.
  pub call_status_endpoint-completed :
      (now : ℕ) (id sid : String) (r : RawWebhook) (s : callnow.Calling.Store) (c : Call)
      → validate_webhook_signature validate_request r ≡ true
      → field "CallSid" r.body ≡ some sid
      → field "CallStatus" r.body ≡ some "completed"
      → find_call sid s.calls ≡ some c
      → let after = call_status_endpoint validate_request now id r s in
        (after.0 ≡ ok true) × (find_call sid after.1.calls ≡ some (report_status now "completed" c))
  unfolding call_status_endpoint
  call_status_endpoint-completed now id sid r s c signed named reported found =
      let parsed = parse_status_callback-completed r sid named reported in
      let done = handle_call_status-completed now id sid (voicemail_body r) s c found in
      let ran : call_status_endpoint validate_request now id r s
          ≡ handle_call_status now id sid "completed" (voicemail_body r) s =
        ground (arith, signed, parsed) in
      rw ran done

-- At most as many addresses of media are read as the request says it has.
pub media_from-length : (body : Form) (i n : ℕ) → length (media_from body i n) ≤ n
unfolding media_from
media_from-length body i zero = omega arith
media_from-length body i (suc n) =
    let rest = media_from-length body (i + 1) n in
    elim (Bool-cases
      (truthy (or_default (field (String.◌++◌ "MediaUrl" (decimal_text (decimal i))) body) ""))) [
        | inl there ↦ rw there (omega (arith, rest))
        | inr absent ↦ rw absent (omega (arith, rest))
      ]
