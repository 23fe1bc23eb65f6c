-- ===== src/Calling/Examples.antt =====
-- Runs of the voice webhooks on a small store.
use callnow.Base.{
  String, [], ◌∷◌, none, some, true, refl, ◌≡◌, ◌≤◌, ok, ◌*◌, ◌+◌, ◌<◌, arith, Bool-cases, ◌==◌,
  inl, sym, ap, truthy, inr,
}
use callnow.Calling.{Store, Call, find_call, has_sid, outbound, is_user, call_inbound, call_status}
use callnow.Numbers.{PhoneNumber, Provider, NumberStatus, find_active, cache_get}
use callnow.Calling.Voice.{InboundCall, VoicemailBody, handle_pstn_inbound}
use callnow.Calling.Status.{report_status, handle_call_status, round_seconds, cost_of}
use callnow.Numbers.Cache.{IsSound}
use callnow.Calling.Laws.{report_status-bounds}
use callnow.Calling.Lifecycle.{ringing, call_lifecycle}

abbrev own_number : PhoneNumber
own_number = record {
  id = "n1";
  user_id = "u1";
  number = "+15550001";
  provider_sid = "sid1";
  provider = "telnyx";
  country_code = "US";
  capabilities = record { voice = true; sms = true; mms = true };
  status = NumberStatus.active;
  monthly_cost = 100;
  released_at = none;
}

abbrev provider : Provider
provider = record {
  name = "telnyx";
  provision_number = λ number. none;
  release_number = λ sid. true;
}

abbrev ended : Call
ended = record {
  id = "k1";
  user_id = none;
  provider_call_sid = some "CA1";
  provider = "telnyx";
  from_number = "+15550001";
  to_number = "+15550009";
  direction = outbound;
  status = "completed";
  duration_seconds = 90;
  cost = some 19500;
  started_at = some 1000;
  ended_at = some 91000;
  created_at = 1000;
}

abbrev tables : Store
tables = record {
  numbers = record {
    numbers = own_number ∷ [];
    subscriptions = [];
    plans = [];
    cache = [];
    asked = [];
    released_sids = [];
  };
  users = "u1" ∷ [];
  calls = ended ∷ [];
  voicemails = [];
  tokens = [];
  events = [];
}

abbrev ring : String → InboundCall
ring sid = record { provider_call_sid = sid; from = "+15550009"; to = "+15550001" }

abbrev recording : VoicemailBody
recording = record {
  recording_url = some "https://r";
  recording_duration = some 12;
  call_sid = some "CA1";
  from = none;
}

report_status-bounds_example :
    (90 * 1000 ≤ 90400 + 500)
    × (90400 < 90 * 1000 + 500)
    × ((report_status 91400 "completed" ended).cost ≡ some 19500)
    × (cost_of outbound 90 * 6 ≤ 90 * 1300 + 3)
    × (90 * 1300 < cost_of outbound 90 * 6 + 3)
    × ((report_status 91400 "completed" ended).ended_at ≡ some 91400)
    × ((report_status 91400 "completed" ended).status ≡ "completed")
unfolding report_status round_seconds cost_of
report_status-bounds_example = report_status-bounds 91400 1000 ended refl (omega arith)

tables-IsSound : IsSound tables.numbers
unfolding cache_get find_active
tables-IsSound = record {
  sound = λ number user_id e. cc;
  named = λ number user_id e. elim (Bool-cases ("+15550001" == number)) [
    | inl hit ↦
        let only : some "u1" ≡ some user_id = rw hit at e in
        let same : "u1" ≡ user_id = cc in sym (ap truthy same)
    | inr miss ↦ let absent : none ≡ some user_id = rw miss at e in cc
  ];
}

call_lifecycle_example :
    let rung = handle_pstn_inbound provider true 5 "k2" "telnyx" (ring "CA2") tables in
    let over = handle_call_status 60605 "v2" "CA2" "completed" recording rung.1 in
    (over.0 ≡ ok true)
    × (find_call "CA2" over.1.calls
        ≡ some (record (ringing provider true 5 "k2" "u1" (ring "CA2")) {
          status = "completed";
          ended_at = some 60605;
          duration_seconds = 61;
          cost = some 8642;
        }))
    × (over.1.events
        ≡ call_inbound "u1" "CA2" "+15550009" "+15550001"
          ∷ call_status (some "u1") "CA2" "completed" (some 61)
          ∷ [])
unfolding has_sid find_call is_user find_active round_seconds cost_of
call_lifecycle_example =
    call_lifecycle provider true 5 60605 "k2" "telnyx" "u1" "v2" (ring "CA2") recording tables
      tables-IsSound refl refl refl
