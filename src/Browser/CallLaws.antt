-- ===== src/Browser/CallLaws.antt =====
-- The states that the browser's store of calls reaches.
use callnow.Base.{
  ℕ, List, Option, ◌≡◌, is_some, ◌∷◌, [], map_option, refl, some, none, Option-cases, inl, arith,
  inr, ◌∙◌, sym, not,
}
use callnow.Browser.{Json}
use callnow.Browser.Calls.{
  CallState, set_incoming_call, IncomingCall, accept_call, initial_calls, tick, decline_call,
  end_call, toggle_mute, toggle_hold, start_call, update_duration, set_call_status,
  set_call_history, add_call_to_history, ActiveCall,
}

-- what the interface, the socket and the interval may do, each with the time of its moment
pub data Operation : Type 0 where
  set_incoming : Option IncomingCall → Operation
  accept start_tick : ℕ → Operation
  decline end mute hold : Operation
  start : ℕ → Json → Json → Json → Operation
  set_duration set_status : Json → Operation
  set_history : List Json → Operation
  add_history : Json → Operation

unfoldable pub apply : Operation → CallState → CallState
apply (set_incoming call) = set_incoming_call call
apply (accept now) = accept_call now
apply (start_tick now) = tick now
apply decline = decline_call
apply end = end_call
apply mute = toggle_mute
apply hold = toggle_hold
apply (start now sid from to) = start_call now sid from to
apply (set_duration seconds) = update_duration seconds
apply (set_status status) = set_call_status status
apply (set_history calls) = set_call_history calls
apply (add_history call) = add_call_to_history call

unfoldable pub apply_all : List Operation → CallState → CallState
apply_all [] s = s
apply_all (o ∷ os) s = apply_all os (apply o s)

-- The overlay is open while a call comes in, and the seconds are counted while a call is active.
abbrev pub IsConsistent : CallState → Type 0
IsConsistent s =
    (s.is_call_overlay_open ≡ is_some s.incoming_call) × (s.timer ≡ is_some s.active_call)

is_some-map : {A B : Type 0} (f : A → B) (o : Option A) → is_some (map_option f o) ≡ is_some o
is_some-map f none = refl
is_some-map f (some a) = refl

apply-IsConsistent : (o : Operation) (s : CallState) → IsConsistent s → IsConsistent (apply o s)
unfolding apply set_incoming_call accept_call tick decline_call end_call toggle_mute toggle_hold
    start_call update_duration set_call_status set_call_history add_call_to_history
apply-IsConsistent (set_incoming call) s h = (refl, h.1)
apply-IsConsistent (accept now) s h = elim (Option-cases s.incoming_call) [
  | inl nobody ↦ ground arith
  | inr (i, coming) ↦ ground arith
]
apply-IsConsistent (start_tick now) s h = elim (Option-cases s.active_call) [
  | inl idle ↦ ground arith
  | inr (c, active) ↦ ground arith
]
apply-IsConsistent decline s h = (refl, h.1)
apply-IsConsistent end s h = (h.0, refl)
apply-IsConsistent mute s h = (
  h.0,
  h.1
      ∙ sym (
          is_some-map {A = ActiveCall} (λ c. record c { is_muted = not c.is_muted }) s.active_call),
)
apply-IsConsistent hold s h = (
  h.0,
  h.1
      ∙ sym (
          is_some-map {A = ActiveCall} (λ c. record c { is_on_hold = not c.is_on_hold })
            s.active_call),
)
apply-IsConsistent (start now sid from to) s h = (h.0, refl)
apply-IsConsistent (set_duration seconds) s h = (
  h.0,
  h.1 ∙ sym (is_some-map {A = ActiveCall} (λ c. record c { duration = seconds }) s.active_call),
)
apply-IsConsistent (set_status status) s h = (
  h.0,
  h.1 ∙ sym (is_some-map {A = ActiveCall} (λ c. record c { status = status }) s.active_call),
)
apply-IsConsistent (set_history calls) s h = h
apply-IsConsistent (add_history call) s h = h

apply_all-kept :
    (os : List Operation) (s : CallState) → IsConsistent s → IsConsistent (apply_all os s)
unfolding apply_all
apply_all-kept [] s h = h
apply_all-kept (o ∷ os) s h = apply_all-kept os (apply o s) (apply-IsConsistent o s h)

-- Whatever is done, the overlay is open exactly while a call comes in, and the interval that counts
-- the seconds is set exactly while a call is active.
pub apply_all-IsConsistent : (os : List Operation) → IsConsistent (apply_all os initial_calls)
apply_all-IsConsistent os = apply_all-kept os initial_calls (refl, refl)
