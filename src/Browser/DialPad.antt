-- ===== src/Browser/DialPad.antt =====
-- The keys of frontend/src/app/(dashboard)/calls/dialpad/_components/DialPad.tsx.
use Prim.Native.String
use Prim.Native.Char.{code}
use Prim.Native.String.{len, slice, String}
use Prim.Native.Nat.{ℕ}
use callnow.Base.{
  Bool, Option, String, if◌then◌else◌, ℕ, ◌-◌, truthy, is_some, ◌||◌, eqb, ltb, some, none, ◌==◌,
}
use callnow.Browser.Voice.{
  initialize_call_client, send_digits, VoiceCall, VoiceClient, make_call, place_call, show_toast,
}
use callnow.Dialer.Text.{is_digit, utf16_length}
use callnow.Browser.Client.{includes}

pub record DialPad : Type 0 where
  pub number : String
  pub from_number : String

-- A key of the pad: the digit goes to the call, or else into the number.
unfoldable pub press_digit : String → DialPad × VoiceClient → DialPad × VoiceClient
unfolding send_digits
press_digit digit (p, v) =
    if is_some v.calls.active_call
    then (p, show_toast (String.◌++◌ "Sent DTMF: " digit) (send_digits digit v))
    else (record p { number = String.◌++◌ p.number digit }, v)

-- `prev.slice(0, -1)`, of a number whose characters have one unit each
unfoldable pub backspace : DialPad → DialPad
backspace p = record p { number = slice p.number 0 (len p.number - 1) }

unfoldable pub clear_number : DialPad → DialPad
clear_number p = record p { number = "" }

-- `/[0-9+*#]/`
abbrev pub is_dial : ℕ → Bool
is_dial c = is_digit c || eqb c b'+' || eqb c b'*' || eqb c b'#'

-- `text.replace(/[^0-9+*#]/g, "")`
unfoldable pub sanitize_number : String → String
sanitize_number String.[] = ""
sanitize_number (String.◌∷◌ c s) =
    let rest = sanitize_number s in if is_dial (code c) then String.◌∷◌ c rest else rest

unfoldable pub paste : String → DialPad → DialPad
unfolding sanitize_number
paste text p =
    if truthy (sanitize_number text) then record p { number = sanitize_number text } else p

-- the key `+` of the keyboard
unfoldable pub press_plus : DialPad → DialPad
press_plus p = record p {
  number = if includes "+" p.number then p.number else String.◌++◌ "+" p.number;
}

-- what `handleCall` is told by the server: a token for a provider, or an error
pub record CallToken : Type 0 where
  pub provider : String

abbrev pub dialled : String → Option VoiceClient → VoiceClient → VoiceClient
dialled number none v = show_toast "WebRTC device not initialized. Call getToken() first." v
dialled number (some w) v = show_toast (String.◌++◌ "Calling " (String.◌++◌ number "...")) w

-- `await initializeCallClient(res.data); await makeCall(…)`, where `registers` says whether the
-- device can be registered and `message` is what an error shows
abbrev pub with_token :
    Bool → String → ℕ → VoiceCall → String → Option CallToken → DialPad → VoiceClient → VoiceClient
with_token registers message now c sid none p v = show_toast message v
with_token registers message now c sid (some token) p v =
    let ready = initialize_call_client token.provider v in
    if registers
    then dialled p.number (make_call now c sid p.number p.from_number ready) ready
    else show_toast message ready

unfoldable pub handle_call :
    Option CallToken → Bool → String → ℕ → VoiceCall → String → DialPad → VoiceClient → VoiceClient
unfolding initialize_call_client make_call place_call
handle_call token registers message now c sid p v =
    if ltb (utf16_length p.number) 3
    then show_toast "Please enter a valid phone number" v
    else (if p.from_number == ""
        then show_toast "Please select a caller ID to call from" v
        else with_token registers message now c sid token p v)
