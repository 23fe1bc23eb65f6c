-- ===== src/Telephony/TelnyxLaws.antt =====
-- What a webhook of Telnyx does to the tables.
use callnow.Calling
use callnow.Telephony.Payload.{
  string, Payload, entry_of, entries, entry, property, to_text, no_entries, object_body,
}
use Prim.Native.String.{String}
use callnow.Base.{
  String, Option, Bool, ℕ, truthy, ◌≡◌, some, true, none, ok, arith, map_option, refl, ap, false,
  sym, ◌∙◌,
}
use callnow.Telephony.Telnyx.{
  parse_telnyx_status, telnyx_status_endpoint, TelnyxWebhook, validate_telnyx_signature,
  normalize_telnyx_status, text_or_empty, payload_of, telnyx_event, is_call_event,
}
use callnow.Telephony.{StatusEvent, field, call, to_lower_case}
use callnow.Calling.Voice.{VoicemailBody}
use callnow.Calling.{Call, find_call}
use callnow.Calling.Status.{report_status}
use callnow.Telephony.Laws.{handle_call_status-completed}

-- the event of a call that was hung up
abbrev pub hangup_body : String → Payload
hangup_body sid = entries (
    entry "data"
      (entries (
        entry "event_type" (string "call.hangup")
          (entry "payload" (entries (entry "call_control_id" (string sid) no_entries)) no_entries)))
      no_entries)

parse_telnyx_status-hangup :
    (sid : String) (signature timestamp : Option String)
    → truthy sid ≡ true
    → parse_telnyx_status
        (record { body = hangup_body sid; signature = signature; timestamp = timestamp })
      ≡ some (record {
        provider_sid = sid;
        resource_type = call;
        status = "completed";
        error_code = none;
      })
unfolding parse_telnyx_status entry_of normalize_telnyx_status to_text field
parse_telnyx_status-hangup sid signature timestamp full = rw (full, full) refl

validate_telnyx_signature-thrown :
    (verify : String → String → Payload → String → Option Bool)
    (public_key signature timestamp : String) (body : Payload)
    → verify public_key timestamp body signature ≡ none
    → truthy signature ≡ true
    → truthy timestamp ≡ true
    → validate_telnyx_signature verify public_key
        (record { body = body; signature = some signature; timestamp = some timestamp })
      ≡ true
unfolding validate_telnyx_signature
validate_telnyx_signature-thrown verify public_key signature timestamp body thrown full_s full_t =
    ground (arith, thrown, full_s, full_t)

-- With a key that the library cannot read, and so throws of, anyone may end any call that is on
-- record: a request with any two headers and the event of a call that was hung up is let through,
-- and the call is completed in the table.
pub telnyx_status_endpoint-forged :
    (verify : String → String → Payload → String → Option Bool) (public_key : String) (now : ℕ)
    (id sid signature timestamp : String) (b : VoicemailBody) (s : callnow.Calling.Store) (c : Call)
    → verify public_key timestamp (hangup_body sid) signature ≡ none
    → truthy signature ≡ true
    → truthy timestamp ≡ true
    → truthy sid ≡ true
    → find_call sid s.calls ≡ some c
    → let r : TelnyxWebhook = record {
      body = hangup_body sid;
      signature = some signature;
      timestamp = some timestamp;
    } in
      let after = telnyx_status_endpoint verify public_key now id b r s in
      (after.0 ≡ ok true) × (find_call sid after.1.calls ≡ some (report_status now "completed" c))
unfolding telnyx_status_endpoint
telnyx_status_endpoint-forged verify public_key now id sid signature timestamp b s c thrown full_s
      full_t full found =
    let through =
      validate_telnyx_signature-thrown verify public_key signature timestamp (hangup_body sid)
        thrown full_s full_t in
    let parsed = parse_telnyx_status-hangup sid (some signature) (some timestamp) full in
    let done = handle_call_status-completed now id sid b s c found in rw (through, parsed) done

pub map_option-eq-some :
    {A B : Type 0} (f : A → B) (o : Option A) (b : B)
    → map_option f o ≡ some b
    → (a : A) × (o ≡ some a) × (f a ≡ b)
map_option-eq-some f none b h = cc
map_option-eq-some f (some a) b h = (a, refl, cc)

telnyx_event-finalized :
    (fields : Payload) (is_call : Bool)
    → (telnyx_event "message.finalized" fields is_call).status ≡ "finalized"
unfolding normalize_telnyx_status to_text field to_lower_case
telnyx_event-finalized fields true = refl
telnyx_event-finalized fields false = refl

-- The outcome of a message is lost: whatever Telnyx says of the delivery, the event that it sends
-- when a message is finished is read as the status finalized, which no part of the program knows.
pub parse_telnyx_status-finalized :
    (r : TelnyxWebhook) (e : StatusEvent)
    → property "event_type" (property "data" (object_body r.body)) ≡ string "message.finalized"
    → parse_telnyx_status r ≡ some e
    → e.status ≡ "finalized"
unfolding parse_telnyx_status to_text
parse_telnyx_status-finalized r e named parsed =
    let event_type = text_or_empty (property "event_type" (property "data" (object_body r.body))) in
    let fields = payload_of (object_body r.body) in
    let known : event_type ≡ "message.finalized" = ap text_or_empty named in
    let split =
      map_option-eq-some (telnyx_event event_type fields) (is_call_event event_type fields) e
        parsed in
    ap (λ x. x.status) (sym split.2)
    ∙ ap (λ k. (telnyx_event k fields split.0).status) known
    ∙ telnyx_event-finalized fields split.0
