-- ===== src/Browser/DialPadLaws.antt =====
-- The number that the dial pad holds (frontend/src/app/(dashboard)/calls/dialpad).
use mathlib.Core.List.{append-nil, append_assoc}
use text.Mathlib.TextLemmas.{append-nil as string_append-nil, append_assoc as string_append_assoc}
use Prim.Native.String
use Prim.Native.Char.{code}
use Prim.Native.String.{String, ◌∷◌}
use Prim.Native.Nat.{ℕ}
use callnow.Base.{
  List, String, ℕ, Bool-cases, ◌∷◌, ◌≡◌, [], inl, refl, true, truthy, inr, arith, none, some, ◌++◌,
  sym, ap, ◌∙◌,
}
use callnow.Browser.DialPad.{paste, sanitize_number, DialPad, is_dial, press_digit}
use callnow.Browser.Voice.{
  Command, VoiceClient, send_tones, send_digits, VoiceCall, show_toast, command,
}
use callnow.Browser.Calls.{ActiveCall}

unfoldable pub press_keys : List String → DialPad × VoiceClient → DialPad × VoiceClient
press_keys [] s = s
press_keys (k ∷ ks) s = press_keys ks (press_digit k s)

unfoldable pub joined : List String → String
joined [] = ""
joined (k ∷ ks) = String.◌++◌ k (joined ks)

-- every character of a text is one that a number is dialled with
unfoldable pub AllDial : String → Type 0
AllDial String.[] = Unit
AllDial (String.◌∷◌ c s) = (is_dial (code c) ≡ true) × AllDial s

unfoldable pub tones : ℕ → List String → List Command
tones id [] = []
tones id (k ∷ ks) = send_tones id k ∷ tones id ks

sanitize_number-AllDial : (s : String) → AllDial (sanitize_number s)
unfolding sanitize_number AllDial
sanitize_number-AllDial String.[] = tt
sanitize_number-AllDial (String.◌∷◌ c s) = elim (Bool-cases (is_dial (code c))) [
  | inl dialled ↦ rw dialled (dialled, sanitize_number-AllDial s)
  | inr dropped ↦ rw dropped (sanitize_number-AllDial s)
]

sanitize_number_self : (s : String) → AllDial s → sanitize_number s ≡ s
unfolding sanitize_number AllDial
sanitize_number_self String.[] h = refl
sanitize_number_self (String.◌∷◌ c s) h = rw (h.0, sanitize_number_self s h.1)

-- What a paste leaves in the number is dialled as it stands, if the number before it was: all of its
-- characters are digits, `+`, `*` or `#`, and another paste of it changes nothing.
pub paste-AllDial :
    (text : String) (p : DialPad)
    → AllDial p.number
    → AllDial (paste text p).number × (paste (paste text p).number (paste text p) ≡ paste text p)
unfolding paste
paste-AllDial text p h =
    let clean = sanitize_number-AllDial text in
    let same = sanitize_number_self (sanitize_number text) clean in
    let kept = sanitize_number_self p.number h in
    elim (Bool-cases (truthy (sanitize_number text))) [
      | inl some_left ↦ (rw some_left clean, ground (arith, some_left, same))
      | inr nothing ↦ (rw nothing h, ground (arith, nothing, kept))
    ]

-- The keys of the pad spell the number while there is no call.
pub press_keys-joined :
    (ks : List String) (p : DialPad) (v : VoiceClient)
    → v.calls.active_call ≡ none
    → press_keys ks (p, v) ≡ (record p { number = String.◌++◌ p.number (joined ks) }, v)
unfolding press_keys joined press_digit
press_keys-joined [] p v idle = ground (arith, string_append-nil p.number)
press_keys-joined (k ∷ ks) p v idle = ground (
  arith,
  press_keys-joined ks (record p { number = String.◌++◌ p.number k }) v idle,
  string_append_assoc p.number k (joined ks),
)

-- The keys of the pad go to the call that is current, one after the other, while one is active, and
-- the number stays.
pub press_keys-tones :
    (ks : List String) (p : DialPad) (v : VoiceClient) (c : VoiceCall) (a : ActiveCall)
    → v.calls.active_call ≡ some a
    → v.current_call ≡ some c
    → ((press_keys ks (p, v)).0 ≡ p)
      × ((press_keys ks (p, v)).1.commands ≡ v.commands ++ tones c.id ks)
      × ((press_keys ks (p, v)).1.calls ≡ v.calls)
unfolding press_keys tones press_digit send_digits
press_keys-tones [] p v c a active current = (refl, sym (append-nil v.commands), refl)
press_keys-tones (k ∷ ks) p v c a active current =
    let sent = show_toast (String.◌++◌ "Sent DTMF: " k) (command (send_tones c.id k) v) in
    let once : press_digit k (p, v) ≡ (p, sent) = ground arith in
    let later = press_keys-tones ks p sent c a active current in
    (
      ap (λ s. (press_keys ks s).0) once ∙ later.0,
      ap (λ s. (press_keys ks s).1.commands) once
          ∙ later.1
          ∙ append_assoc v.commands (send_tones c.id k ∷ []) (tones c.id ks),
      ap (λ s. (press_keys ks s).1.calls) once ∙ later.2,
    )
