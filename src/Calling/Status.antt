-- ===== src/Calling/Status.antt =====
-- backend/src/calling/webhooks/voice-webhook.controller.ts: `handleCallStatus`.
use callnow.Base.{
  ℕ, List, String, Option, Bool, Action, if◌then◌else◌, pure, some, throw, update_where, ◌*◌, ◌+◌,
  ◌==◌, ◌>>=◌, fault, gets, true, ◌&&◌, ◌-◌, ◌/◌, ◌||◌, none, truthy?, ◌>>◌, modify, or_text, false,
}
use callnow.Calling.{
  Call, Store, Direction, create_voicemail, find_call, emit, outbound, inbound, call_status,
}
use callnow.Calling.Voice.{VoicemailBody}

-- `Math.round(ms / 1000)`
unfoldable pub round_seconds : ℕ → ℕ
round_seconds ms = (ms + 500) / 1000

-- `(duration / 60) * ratePerMinute`, `toFixed(6)`: $0.013 or $0.0085 a minute are 1300 or 850 sixths
-- of a millionth a second; the sixths are even, so no half is ever rounded.
unfoldable pub cost_of : Direction → ℕ → ℕ
cost_of outbound seconds = (seconds * 1300 + 3) / 6
cost_of inbound seconds = (seconds * 850 + 3) / 6

abbrev pub finish : ℕ → Call → Option ℕ → Call
finish now c none = record c { ended_at = some now }
finish now c (some t) = record c {
  ended_at = some now;
  duration_seconds = round_seconds (now - t);
  cost = some (cost_of c.direction (round_seconds (now - t)));
}

-- the row after the `update`
unfoldable pub report_status : ℕ → String → Call → Call
report_status now status c =
    record (if status == "completed" then finish now c c.started_at else c) { status = status }

unfoldable pub set_call : ℕ → String → String → List Call → List Call
unfolding report_status
set_call now status id = update_where (λ c. c.id == id) (report_status now status)

-- `updates.durationSeconds`
abbrev pub reported_duration : ℕ → String → Option ℕ → Option ℕ
reported_duration now status none = none
reported_duration now status (some t) =
    if status == "completed" then some (round_seconds (now - t)) else none

abbrev pub is_missed : String → Bool
is_missed status = status == "no-answer" || status == "failed" || status == "busy"

-- A duration that `parseInt` does not read is rejected by the query.
abbrev pub store_recording : ℕ → String → Call → String → Option ℕ → Action Store (Unit {0})
store_recording now id c url none = throw fault
store_recording now id c url (some seconds) = do
  create_voicemail (record {
    id = id;
    call_id = some c.id;
    user_id = or_text c.user_id "unknown";
    from_number = c.from_number;
    recording_url = url;
    transcript = none;
    transcription_source = none;
    duration_seconds = some seconds;
    is_read = false;
    created_at = now;
  })
  pure tt

abbrev pub store_missed : ℕ → String → String → Call → VoicemailBody → Action Store (Unit {0})
store_missed now id status c b =
    if is_missed status && truthy? b.recording_url
    then store_recording now id c (or_text b.recording_url "") b.recording_duration
    else pure tt

abbrev pub update_status :
    ℕ → String → String → String → VoicemailBody → Option Call → Action Store Bool
update_status now id sid status b none = pure true
update_status now id sid status b (some c) = do
  modify (λ s. record s { calls = set_call now status c.id s.calls })
  store_missed now id status c b
  modify (emit (call_status c.user_id sid status (reported_duration now status c.started_at)))
  pure true

-- `sid` and `status` are what the provider's parser makes of the request; `id` is for a voicemail.
unfoldable pub handle_call_status : ℕ → String → String → String → VoicemailBody → Action Store Bool
unfolding create_voicemail
handle_call_status now id sid status b = do
  c ← gets (λ s. find_call sid s.calls)
  update_status now id sid status b c
