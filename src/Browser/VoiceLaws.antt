-- ===== src/Browser/VoiceLaws.antt =====
-- What the buttons of a call do to the line (frontend/src/lib/webrtc.ts, ActiveCallBar.tsx).
use mathlib.Core.List.{append-nil, append_assoc}
use Prim.Native.Nat.{ℕ, suc}
use callnow.Base.{
  List, ℕ, String, ◌∷◌, ◌≡◌, Option, [], none, zero, true, ◌∙◌, arith, refl, some, false, ◌++◌, ap,
  is_some, sym,
}
use callnow.Browser.Voice.{
  VoiceClient, accept_incoming_call, on_incoming, press_mute, Command, decline_incoming_call,
  toggle_line, hang_up, mute_call, send_digits, unmute, unmute_call, VoiceCall, command, on_accept,
  on_cancel, disconnect,
}
use callnow.Browser.Calls.{set_incoming_call, toggle_mute, ActiveCall, accept_call, end_call}

pub data Button : Type 0 where
  press_accept : ℕ → Button
  press_decline press_hang_up press_toggle_mute : Button
  press_key : String → Button

unfoldable pub press : Button → VoiceClient → VoiceClient
press (press_accept now) = accept_incoming_call now
press press_decline = decline_incoming_call
press press_hang_up = hang_up
press press_toggle_mute = press_mute
press (press_key tones) = send_digits tones

unfoldable pub press_all : List Button → VoiceClient → VoiceClient
press_all [] v = v
press_all (b ∷ bs) v = press_all bs (press b v)

press-silent :
    (b : Button) (v : VoiceClient)
    → v.current_call ≡ none
    → ((press b v).current_call ≡ none) × ((press b v).commands ≡ v.commands)
unfolding press accept_incoming_call decline_incoming_call hang_up press_mute toggle_line
    send_digits mute_call unmute_call
press-silent (press_accept now) v idle = (idle, refl)
press-silent press_decline v idle = (idle, refl)
press-silent press_hang_up v idle = ground (arith, idle)
press-silent press_toggle_mute v idle = ground (arith, idle)
press-silent (press_key tones) v idle = ground (arith, idle)

press_all-silent :
    (bs : List Button) (v : VoiceClient)
    → v.current_call ≡ none
    → (press_all bs v).commands ≡ v.commands
unfolding press_all
press_all-silent [] v idle = refl
press_all-silent (b ∷ bs) v idle =
    let (still, same) = press-silent b v idle in press_all-silent bs (press b v) still ∙ same

-- A call that comes in while none is current is shown, and whatever buttons the user then presses,
-- to answer it, to decline it or to hang it up, nothing is asked of the provider's library: the
-- call is neither taken nor refused, as long as the library itself reports nothing.
pub on_incoming-unanswered :
    (sid from to : Option String) (bs : List Button) (v : VoiceClient)
    → v.current_call ≡ none
    → ((on_incoming sid from to v).calls.is_call_overlay_open ≡ true)
      × ((press_all bs (on_incoming sid from to v)).commands ≡ v.commands)
unfolding on_incoming set_incoming_call
on_incoming-unanswered sid from to bs v idle =
    (refl, press_all-silent bs (on_incoming sid from to v) idle)

unfoldable pub press_mutes : ℕ → VoiceClient → VoiceClient
press_mutes zero v = v
press_mutes (suc n) v = press_mutes n (press_mute v)

unfoldable pub unmutes : ℕ → ℕ → List Command
unmutes zero id = []
unmutes (suc n) id = unmute id ∷ unmutes n id

press_mute-unmutes :
    (v : VoiceClient) (c : VoiceCall) (a : ActiveCall)
    → v.current_call ≡ some c
    → v.calls.active_call ≡ some a
    → a.is_muted ≡ false
    → press_mute v ≡ command (unmute c.id) v
unfolding press_mute toggle_line mute_call unmute_call toggle_mute
press_mute-unmutes v c a current active heard = ground arith

-- However often the mute button is pressed in a call that is not muted, the line is never muted:
-- each press asks the library to unmute it, and the store, which the screen shows, is unchanged.
pub press_mutes-unmutes :
    (n : ℕ) (v : VoiceClient) (c : VoiceCall) (a : ActiveCall)
    → v.current_call ≡ some c
    → v.calls.active_call ≡ some a
    → a.is_muted ≡ false
    → ((press_mutes n v).commands ≡ v.commands ++ unmutes n c.id)
      × ((press_mutes n v).calls ≡ v.calls)
unfolding press_mutes unmutes
press_mutes-unmutes zero v c a current active heard = (sym (append-nil v.commands), refl)
press_mutes-unmutes (suc n) v c a current active heard =
    let once = press_mute-unmutes v c a current active heard in
    let (asked, shown) = press_mutes-unmutes n (command (unmute c.id) v) c a current active heard in
    (
      ap (λ w. (press_mutes n w).commands) once
          ∙ asked
          ∙ append_assoc v.commands (unmute c.id ∷ []) (unmutes n c.id),
      ap (λ w. (press_mutes n w).calls) once ∙ shown,
    )

-- A call that the caller cancels stays on the screen, and the user who then accepts it is shown a
-- call in progress, which is connected to no one: no call is current.
pub on_cancel-shown :
    (now : ℕ) (sid from to : Option String) (v : VoiceClient)
    → let cancelled = on_cancel (on_incoming sid from to v) in
      let accepted = accept_incoming_call now cancelled in
      (cancelled.calls.is_call_overlay_open ≡ true)
      × (is_some accepted.calls.active_call ≡ true)
      × (accepted.current_call ≡ none)
unfolding on_cancel on_incoming set_incoming_call accept_incoming_call accept_call
on_cancel-shown now sid from to v = (refl, refl, refl)

-- A simulated call that is hung up before it reports that it was accepted becomes the current call
-- again when it does, while the store shows no call.
pub hang_up-accepted_late :
    (c : VoiceCall) (v : VoiceClient)
    → v.current_call ≡ some c
    → let late = on_accept c (hang_up v) in
      (late.current_call ≡ some c)
      × (late.calls.active_call ≡ none)
      × ((hang_up v).current_call ≡ none)
      × ((hang_up v).commands ≡ v.commands ++ (disconnect c.id ∷ []))
unfolding hang_up on_accept end_call
hang_up-accepted_late c v current = (refl, refl, ground arith, ground arith)
