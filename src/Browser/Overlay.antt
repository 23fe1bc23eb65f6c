-- ===== src/Browser/Overlay.antt =====
-- frontend/src/components/calling/InboundCallOverlay.tsx: the seconds that an incoming call is shown.
-- An effect runs when what it depends on has changed, and leaves the interval set or not.
use Prim.Native.Nat.{ℕ, suc}
use callnow.Base.{
  if◌then◌else◌, ℕ, ◌≡◌, not, some, true, ◌-◌, eqb, zero, ◌<◌, arith, ap, ◌∙◌, ◌≤◌, refl, none,
  false,
}
use callnow.Browser.Calls.{IncomingCall, set_incoming_call, CallState, decline_call}

pub record Overlay : Type 0 where
  pub time_left : ℕ
  pub calls : CallState

-- the effect: back to 30 while the overlay is closed, and a call whose time is over is declined,
-- which closes it
unfoldable pub effect : Overlay → Overlay
effect o =
    if not o.calls.is_call_overlay_open
    then record o { time_left = 30 }
    else (if eqb o.time_left 0
        then record o { time_left = 30; calls = decline_call o.calls }
        else o)

-- a second of the interval, which is set while the overlay is open
unfoldable pub second : Overlay → Overlay
unfolding effect
second o =
    if o.calls.is_call_overlay_open then effect (record o { time_left = o.time_left - 1 }) else o

unfoldable pub seconds : ℕ → Overlay → Overlay
seconds zero o = o
seconds (suc n) o = seconds n (second o)

-- a call that comes in, also while another one is shown
unfoldable pub show_call : IncomingCall → Overlay → Overlay
unfolding effect
show_call i o = effect (record o { calls = set_incoming_call (some i) o.calls })

second-shown :
    (o : Overlay)
    → o.calls.is_call_overlay_open ≡ true
    → 1 < o.time_left
    → second o ≡ record o { time_left = o.time_left - 1 }
unfolding second
second-shown o shown more = ground arith

second-over :
    (o : Overlay)
    → o.calls.is_call_overlay_open ≡ true
    → o.time_left ≡ 1
    → second o ≡ record {
      time_left = 30;
      calls = record o.calls { incoming_call = none; is_call_overlay_open = false };
    }
unfolding second decline_call
second-over o shown last = ground arith

-- A call that nobody takes does not ring for ever: while the seconds are fewer than those that are
-- left, the overlay stays as it is and counts down, and after as many it is closed, the call is
-- gone, whatever else is in the store stays, and the next call has 30 seconds again.
pub seconds-declined :
    (n : ℕ) (o : Overlay)
    → o.calls.is_call_overlay_open ≡ true
    → n < o.time_left
    → (seconds n o ≡ record o { time_left = o.time_left - n })
      × (seconds o.time_left o ≡ record {
        time_left = 30;
        calls = record o.calls { incoming_call = none; is_call_overlay_open = false };
      })
unfolding seconds
seconds-declined n o shown few =
    (seconds-shown n o shown few, seconds-over o.time_left o shown refl (omega arith))
  where
    seconds-shown :
        (n : ℕ) (o : Overlay)
        → o.calls.is_call_overlay_open ≡ true
        → n < o.time_left
        → seconds n o ≡ record o { time_left = o.time_left - n }
    seconds-shown zero o shown few = ground arith
    seconds-shown (suc n) o shown few =
        ap (seconds n) (second-shown o shown (omega arith))
        ∙ seconds-shown n (record o { time_left = o.time_left - 1 }) shown (omega arith)
        ∙ ap (λ t. record o { time_left = t }) (omega arith)

    seconds-over :
        (n : ℕ) (o : Overlay)
        → o.calls.is_call_overlay_open ≡ true
        → o.time_left ≡ n
        → 1 ≤ n
        → seconds n o ≡ record {
          time_left = 30;
          calls = record o.calls { incoming_call = none; is_call_overlay_open = false };
        }
    seconds-over zero o shown here none_left = absurd (omega arith)
    seconds-over (suc zero) o shown here some_left = second-over o shown here
    seconds-over (suc (suc n)) o shown here some_left =
        ap (seconds (suc n)) (second-shown o shown (omega arith))
        ∙ seconds-over (suc n) (record o { time_left = o.time_left - 1 }) shown (omega arith)
            (omega arith)

-- A second call that comes in while the first is shown gets only the seconds that are left.
pub show_call-time_left :
    (i : IncomingCall) (o : Overlay)
    → o.calls.is_call_overlay_open ≡ true
    → 0 < o.time_left
    → (show_call i o).time_left ≡ o.time_left
unfolding show_call set_incoming_call
show_call-time_left i o shown more = ground arith
