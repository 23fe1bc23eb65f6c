-- ===== src/Browser/Voice.antt =====
-- frontend/src/lib/webrtc.ts: the browser's end of a call. The device and the calls are objects of
-- a provider's library, or of the simulation that stands in for one; what the client asks of them
-- is the list `commands`, and what they report is an operation, such as `on_accept`.
use Prim.Native.String
use callnow.Browser.{str}
use Prim.Native.Nat.{ℕ}
use Prim.Native.String.{String, []}
use callnow.Base.{
  Option, String, if◌then◌else◌, none, some, ℕ, ◌++◌, Bool, List, ◌==◌, ◌∷◌, [], false, ◌||◌,
  or_text,
}
use callnow.Browser.Calls.{
  CallState, decline_call, end_call, toggle_mute, ActiveCall, accept_call, initial_calls,
  set_incoming_call, start_call,
}
use callnow.Browser.Client.{includes}

-- A call of the simulation reports the end of itself at once, when it is disconnected.
pub record VoiceCall : Type 0 where
  pub id : ℕ
  pub is_simulated : Bool

pub data Command : Type 0 where
  register destroy : String → Command
  connect disconnect mute unmute : ℕ → Command
  send_tones : ℕ → String → Command

-- the module's variables, the store of calls, and what was asked and shown so far
pub record VoiceClient : Type 0 where
  pub device : Option String
  pub current_call : Option VoiceCall
  pub active_provider : Option String
  pub calls : CallState
  pub commands : List Command
  pub toasts : List String

abbrev pub initial_voice : VoiceClient
initial_voice = record {
  device = none;
  current_call = none;
  active_provider = none;
  calls = initial_calls;
  commands = [];
  toasts = [];
}

abbrev pub command : Command → VoiceClient → VoiceClient
command c v = record v { commands = v.commands ++ (c ∷ []) }

abbrev pub on_calls : (CallState → CallState) → VoiceClient → VoiceClient
on_calls f v = record v { calls = f v.calls }

abbrev pub show_toast : String → VoiceClient → VoiceClient
show_toast text v = record v { toasts = v.toasts ++ (text ∷ []) }

-- `if (device) device.destroy()`
abbrev pub destroy_device : Option String → VoiceClient → VoiceClient
destroy_device none v = v
destroy_device (some name) v = command (destroy name) v

-- The name under which a device stands: the simulation of Telnyx spells it with a capital.
abbrev pub device_name : String → String
device_name provider = if provider == "telnyx" then "Telnyx" else provider

-- The device is put in place before it is registered, and stays if that fails.
unfoldable pub initialize_call_client : String → VoiceClient → VoiceClient
initialize_call_client provider v =
    let v' = destroy_device v.device (record v { active_provider = some provider }) in
    command (register (device_name provider)) (record v' { device = some (device_name provider) })

-- what `setupTwilioCallHandlers` has the call report
unfoldable pub on_accept : VoiceCall → VoiceClient → VoiceClient
on_accept c v = record v { current_call = some c }

unfoldable pub on_disconnect : VoiceClient → VoiceClient
on_disconnect v = on_calls end_call (record v { current_call = none })

-- `cancel` and `reject`
unfoldable pub on_cancel : VoiceClient → VoiceClient
on_cancel v = record v { current_call = none }

-- the device's `incoming`, with the parameters of the call, each absent if it is empty
unfoldable pub on_incoming :
    Option String → Option String → Option String → VoiceClient → VoiceClient
on_incoming sid from to = on_calls (
    set_incoming_call (
      some (record {
        call_sid = str (or_text sid "unknown");
        from = str (or_text from "Unknown");
        to = str (or_text to "Unknown");
      })))

-- the device's `error`
unfoldable pub on_error_event : String → VoiceClient → VoiceClient
on_error_event message =
    if includes "Permission" message || includes "NotAllowed" message
    then show_toast "Microphone access is required to make calls."
    else (if includes "network" message || includes "connection" message
        then show_toast "Network connection lost. Please check your internet."
        else show_toast (String.◌++◌ "Call setup failed: " message))

-- `connect` gives the call `c`; its parameters name a sid, or the client makes one up.
unfoldable pub place_call : ℕ → VoiceCall → String → String → String → VoiceClient → VoiceClient
place_call now c sid to from v =
    on_calls (start_call now (str sid) (str from) (str to))
      (record (command (connect c.id) v) { current_call = some c })

-- `makeCall`: `none` where it throws
abbrev pub call_through :
    Option String → ℕ → VoiceCall → String → String → String → VoiceClient → Option VoiceClient
call_through none now c sid to from v = none
call_through (some name) now c sid to from v = some (place_call now c sid to from v)

unfoldable pub make_call :
    ℕ → VoiceCall → String → String → String → VoiceClient → Option VoiceClient
make_call now c sid to from v = call_through v.device now c sid to from v

-- `currentCall.disconnect()`
abbrev pub disconnect_call : VoiceCall → VoiceClient → VoiceClient
disconnect_call c v =
    if c.is_simulated
    then on_disconnect (command (disconnect c.id) v)
    else command (disconnect c.id) v

-- `if (currentCall) { currentCall.disconnect(); currentCall = null; }`
abbrev pub drop_call : Option VoiceCall → VoiceClient → VoiceClient
drop_call none v = v
drop_call (some c) v = record (disconnect_call c v) { current_call = none }

unfoldable pub hang_up : VoiceClient → VoiceClient
unfolding on_disconnect
hang_up v = on_calls end_call (drop_call v.current_call v)

abbrev pub with_current :
    (VoiceCall → VoiceClient → VoiceClient) → Option VoiceCall → VoiceClient → VoiceClient
with_current f none v = v
with_current f (some c) v = f c v

unfoldable pub mute_call : VoiceClient → VoiceClient
mute_call v = with_current (λ c w. on_calls toggle_mute (command (mute c.id) w)) v.current_call v

unfoldable pub unmute_call : VoiceClient → VoiceClient
unmute_call v =
    with_current (λ c w. on_calls toggle_mute (command (unmute c.id) w)) v.current_call v

-- `activeCall?.isMuted`
abbrev pub is_active_muted : Option ActiveCall → Bool
is_active_muted none = false
is_active_muted (some c) = c.is_muted

-- the module's `toggleMute`
unfoldable pub toggle_line : VoiceClient → VoiceClient
unfolding mute_call unmute_call
toggle_line v = if is_active_muted v.calls.active_call then unmute_call v else mute_call v

-- The button of ActiveCallBar.tsx and of DialPad.tsx: the store's toggle, then the module's.
unfoldable pub press_mute : VoiceClient → VoiceClient
unfolding toggle_line
press_mute v = toggle_line (on_calls toggle_mute v)

unfoldable pub send_digits : String → VoiceClient → VoiceClient
send_digits tones v = with_current (λ c w. command (send_tones c.id tones) w) v.current_call v

unfoldable pub accept_incoming_call : ℕ → VoiceClient → VoiceClient
accept_incoming_call now = on_calls (accept_call now)

unfoldable pub decline_incoming_call : VoiceClient → VoiceClient
decline_incoming_call = on_calls decline_call

unfoldable pub destroy_call_client : VoiceClient → VoiceClient
unfolding on_disconnect
destroy_call_client v =
    let v' = drop_call v.current_call v in
    record (destroy_device v'.device v') { device = none; active_provider = none }
