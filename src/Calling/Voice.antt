-- ===== src/Calling/Voice.antt =====
-- backend/src/calling/webhooks/voice-webhook.controller.ts: `handleInboundCall` and
-- `handleVoicemail`. The provider's parser is not modelled here: the handlers start from the
-- normalised request and from the fields of the body that they read themselves.
use Prim.Native.String
use Prim.Native.String.{len, slice}
use text.Mathlib.Text.{starts_with}
use callnow.Base.{
  ℕ, List, String, Option, Bool, Action, if◌then◌else◌, or_text, pure, some, ◌>>=◌, gets, none,
  truthy, ◌>>◌, false, map_option, modify,
}
use callnow.Calling.{
  Call, Store, Control, create_call, create_voicemail, find_call, emit, Direction, reject, inbound,
  outbound, dial_number, call_inbound, dial_client,
}
use callnow.Dialer.Text.{trim}
use callnow.Numbers.{Provider, get_user_by_number}

pub record InboundCall : Type 0 where
  pub provider_call_sid : String
  pub from : String
  pub to : String

-- `Caller`, `From`, `from`, `to` and `To`
pub record VoiceBody : Type 0 where
  pub caller : Option String
  pub from_header : Option String
  pub from : Option String
  pub to : Option String
  pub to_header : Option String

-- `body.Caller || body.From || normalized.from || ''`
unfoldable pub caller_of : VoiceBody → InboundCall → String
caller_of b n = or_text b.caller (or_text b.from_header n.from)

-- `caller.startsWith('client:')`, to which the longer test comes down
unfoldable pub is_client_outbound : String → Bool
is_client_outbound caller = starts_with caller "client:"

-- `caller.replace('client:', '').trim()`, of a caller that starts so
unfoldable pub client_id : String → String
client_id caller = trim (slice caller 7 (len caller))

abbrev pub or_null : String → Option String
or_null s = if truthy s then some s else none

unfoldable pub voicemail_path : String → String → String
voicemail_path provider user_id =
    String.◌++◌ "/webhooks/" (String.◌++◌ provider (String.◌++◌ "/voice/voicemail?userId=" user_id))

-- What the request's body has for a voicemail; `recording_duration` is what `parseInt` reads, `none`
-- where that is NaN.
pub record VoicemailBody : Type 0 where
  pub recording_url : Option String
  pub recording_duration : Option ℕ
  pub call_sid : Option String
  pub from : Option String

abbrev pub or_zero : Option ℕ → ℕ
or_zero none = 0
or_zero (some n) = n

-- `(x as string) || ''`
abbrev pub or_blank : Option String → String
or_blank o = or_text o ""

-- `transcript`: the provider may have no transcription, or fail
abbrev pub transcribed : Option (String → Option String) → String → String
transcribed none url = ""
transcribed (some transcribe) url = or_blank (transcribe url)

abbrev pub source_of : String → Option String
source_of transcript = some (if truthy transcript then "provider" else "external-stt")

module _ (p : Provider) (redis : Bool) where
  -- a call of the numbers service, on its part of the store
  unfoldable pub lookup_owner : String → Action Store (Option String)
  unfolding get_user_by_number
  lookup_owner number s =
      let (r, numbers) = get_user_by_number p redis number s.numbers in
      (r, record s { numbers = numbers })

  -- `if (callerId) { … }`, and the owner that it leaves
  abbrev pub outbound_owner : String → String → Action Store String
  outbound_owner client number =
      if truthy number
      then (do verified ← lookup_owner number; pure (or_text verified client))
      else pure client

  abbrev pub new_call :
      ℕ → String → Option String → InboundCall → String → String → Direction → String → Call
  new_call now id owner n from to direction status = record {
    id = id;
    user_id = owner;
    provider_call_sid = some n.provider_call_sid;
    provider = p.name;
    from_number = from;
    to_number = to;
    direction = direction;
    status = status;
    duration_seconds = 0;
    cost = none;
    started_at = some now;
    ended_at = none;
    created_at = now;
  }

  unfoldable pub handle_client_outbound :
      ℕ → String → VoiceBody → InboundCall → Action Store Control
  unfolding lookup_owner create_call
  handle_client_outbound now id b n = do
    owner ← outbound_owner (client_id (caller_of b n)) (or_blank b.from)
    create_call (
        new_call now id (or_null owner) n (or_text b.from "WebRTC")
          (or_text b.to (or_text b.to_header n.to)) outbound "initiated")
    pure (dial_number (or_text b.to (or_text b.to_header n.to)) 30)

  -- what is done for the owner of the called number
  abbrev pub ring_owner : ℕ → String → String → InboundCall → Option String → Action Store Control
  ring_owner now id path n none = pure reject
  ring_owner now id path n (some owner) =
      if truthy owner
      then (do
        create_call (new_call now id (some owner) n n.from n.to inbound "ringing")
        modify (emit (call_inbound owner n.provider_call_sid n.from n.to))
        pure (dial_client owner 30 (voicemail_path path owner)))
      else pure reject

  unfoldable pub handle_pstn_inbound : ℕ → String → String → InboundCall → Action Store Control
  unfolding lookup_owner create_call
  handle_pstn_inbound now id path n = do owner ← lookup_owner n.to; ring_owner now id path n owner

  -- `path` is the provider's name in the route, and `id` the id for the new row.
  unfoldable pub handle_inbound_call :
      ℕ → String → String → VoiceBody → InboundCall → Action Store Control
  handle_inbound_call now id path b n =
      if is_client_outbound (caller_of b n)
      then handle_client_outbound now id b n
      else handle_pstn_inbound now id path n

-- `if (callSid) { … }`
abbrev pub call_id_of : String → List Call → Option String
call_id_of sid calls = if truthy sid then map_option (λ c. c.id) (find_call sid calls) else none

-- `transcribe` is the provider's, where it has one; `user_id` is the query's.
unfoldable pub handle_voicemail :
    Option (String → Option String)
    → ℕ
    → String
    → VoicemailBody
    → Option String
    → Action Store (Unit {0})
unfolding create_voicemail
handle_voicemail transcribe now id b user_id = do
  call_id ← gets (λ s. call_id_of (or_blank b.call_sid) s.calls)
  create_voicemail (record {
    id = id;
    call_id = call_id;
    user_id = or_text user_id "unknown";
    from_number = or_blank b.from;
    recording_url = or_blank b.recording_url;
    transcript = or_null (transcribed transcribe (or_blank b.recording_url));
    transcription_source = source_of (transcribed transcribe (or_blank b.recording_url));
    duration_seconds = some (or_zero b.recording_duration);
    is_read = false;
    created_at = now;
  })
  pure tt
