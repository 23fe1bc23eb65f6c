-- ===== src/Browser/VoiceExamples.antt =====
-- Runs of the proxy, of the browser's end of a call and of the dial pad.
use callnow.Browser.{Json, str, undefined, object, field, no_fields, String, field_of}
use callnow.Base.{
  String, Option, if◌then◌else◌, some, true, ◌∷◌, ◌≡◌, [], none, refl, ◌==◌, eqb, ◌++◌, inr, inl,
}
use callnow.Browser.Proxy.{SetCookie, answer, get_auth_token}
use callnow.Browser.ProxyLaws.{after, request, answer-request}
use callnow.Browser.Voice.{
  VoiceCall, VoiceClient, make_call, on_incoming, initial_voice, initialize_call_client, place_call,
  register, connect,
}
use callnow.Browser.VoiceLaws.{
  press_mutes, press_all, press_accept, unmutes, press_mutes-unmutes, press_toggle_mute,
  press_hang_up, on_incoming-unanswered,
}
use callnow.Browser.DialPad.{DialPad, paste}
use callnow.Browser.Calls.{initial_calls, begun, start_call}

abbrev CookieJar : Type 0
CookieJar = String → Option String

abbrev read_cookie : String → CookieJar → Option String
read_cookie n j = j n

abbrev keep_cookie : SetCookie → CookieJar → CookieJar
keep_cookie c j n = if c.name == n then (if eqb c.max_age 0 then none else some c.value) else j n

abbrev session_answer : Json
session_answer = object (
    field "data"
      (object (field "accessToken" (str "a1") (field "refreshToken" (str "r1") no_fields)))
      no_fields)

answer-request_example :
    let j =
      after read_cookie keep_cookie
        (answer true "/auth/google" 200 (some session_answer))
        (λ n. none) in
    (get_auth_token
        (request read_cookie keep_cookie j
          (some "Bearer null")
          "GET"
          "/calls"
          undefined).authorization
      ≡ some "a1")
    × ((request read_cookie keep_cookie j
          (some "Bearer null")
          "POST"
          "/auth/refresh"
          (object no_fields)).body
        ≡ some (object (field "refreshToken" (str "r1") no_fields)))
unfolding field_of
answer-request_example =
    answer-request read_cookie keep_cookie true "/auth/google" 200 session_answer "a1" "r1"
      (λ n. none) (some "Bearer null") "GET" "/calls" undefined (λ n c j. refl) (inr (inl refl))
      refl refl refl refl refl refl

-- a call from the pad, over a device of the simulation
abbrev simulated_call : VoiceCall
simulated_call = record { id = 7; is_simulated = true }

abbrev placed_call : VoiceClient
placed_call = record initial_voice {
  device = some "plivo";
  current_call = some simulated_call;
  calls = record initial_calls {
    active_call =
        some (begun 10 (str "plivo-call-10") (str "+14155550100") (str "+14155550199") "ringing");
    timer = true;
  };
}

placed_call_made :
    make_call 10 simulated_call "plivo-call-10" "+14155550199" "+14155550100"
      (initialize_call_client "plivo" initial_voice)
    ≡ some (record placed_call {
      active_provider = some "plivo";
      commands = register "plivo" ∷ connect 7 ∷ [];
    })
unfolding make_call initialize_call_client place_call start_call
placed_call_made = refl

on_incoming-unanswered_example :
    ((on_incoming (some "CA1") none none initial_voice).calls.is_call_overlay_open ≡ true)
    × ((press_all
          (press_accept 5 ∷ press_toggle_mute ∷ press_hang_up ∷ [])
          (on_incoming (some "CA1") none none initial_voice)).commands
        ≡ [])
on_incoming-unanswered_example =
    on_incoming-unanswered (some "CA1") none none
      (press_accept 5 ∷ press_toggle_mute ∷ press_hang_up ∷ []) initial_voice refl

press_mutes-unmutes_example :
    ((press_mutes 3 placed_call).commands ≡ [] ++ unmutes 3 7)
    × ((press_mutes 3 placed_call).calls ≡ placed_call.calls)
press_mutes-unmutes_example =
    press_mutes-unmutes 3 placed_call simulated_call
      (begun 10 (str "plivo-call-10") (str "+14155550100") (str "+14155550199") "ringing") refl refl
      refl

abbrev empty_pad : DialPad
empty_pad = record { number = ""; from_number = "+14155550100" }

paste_shown : (paste "(415) 555-0199" empty_pad).number ≡ "4155550199"
unfolding paste
paste_shown = refl
