-- ===== src/Browser/Calls.antt =====
-- frontend/src/store/callStore.ts. What comes from a packet is untyped; `timer` says whether the
-- interval that counts the seconds is set, and a tick of it is an operation.
use callnow.Base.{
  ℕ, Bool, List, Option, String, if◌then◌else◌, map_option, none, not, some, ◌∷◌, false, is_some,
  true, [], ◌-◌, ◌/◌,
}
use callnow.Browser.{Json, str, num}

pub record IncomingCall : Type 0 where
  pub call_sid : Json
  pub from : Json
  pub to : Json

pub record ActiveCall : Type 0 where
  pub call_sid : Json
  pub from : Json
  pub to : Json
  pub status : Json
  pub duration : Json
  pub is_muted : Bool
  pub is_on_hold : Bool
  pub start_time : ℕ

pub record CallState : Type 0 where
  pub active_call : Option ActiveCall
  pub incoming_call : Option IncomingCall
  pub is_call_overlay_open : Bool
  pub call_history : List Json
  pub timer : Bool

abbrev pub initial_calls : CallState
initial_calls = record {
  active_call = none;
  incoming_call = none;
  is_call_overlay_open = false;
  call_history = [];
  timer = false;
}

abbrev pub map_active : (ActiveCall → ActiveCall) → CallState → CallState
map_active f s = record s { active_call = map_option f s.active_call }

unfoldable pub set_incoming_call : Option IncomingCall → CallState → CallState
set_incoming_call call s = record s { incoming_call = call; is_call_overlay_open = is_some call }

abbrev pub begun : ℕ → Json → Json → Json → String → ActiveCall
begun now sid from to status = record {
  call_sid = sid;
  from = from;
  to = to;
  status = str status;
  duration = num 0;
  is_muted = false;
  is_on_hold = false;
  start_time = now;
}

abbrev pub accept : ℕ → Option IncomingCall → CallState → CallState
accept now none s = s
accept now (some i) s = record s {
  active_call = some (begun now i.call_sid i.from i.to "in-progress");
  incoming_call = none;
  is_call_overlay_open = false;
  timer = true;
}

unfoldable pub accept_call : ℕ → CallState → CallState
accept_call now s = accept now s.incoming_call s

unfoldable pub decline_call : CallState → CallState
decline_call s = record s { incoming_call = none; is_call_overlay_open = false }

unfoldable pub start_call : ℕ → Json → Json → Json → CallState → CallState
start_call now sid from to s = record s {
  active_call = some (begun now sid from to "ringing");
  timer = true;
}

unfoldable pub end_call : CallState → CallState
end_call s = record s { active_call = none; timer = false }

unfoldable pub toggle_mute : CallState → CallState
toggle_mute = map_active (λ c. record c { is_muted = not c.is_muted })

unfoldable pub toggle_hold : CallState → CallState
toggle_hold = map_active (λ c. record c { is_on_hold = not c.is_on_hold })

unfoldable pub update_duration : Json → CallState → CallState
update_duration seconds = map_active (λ c. record c { duration = seconds })

unfoldable pub set_call_status : Json → CallState → CallState
set_call_status status = map_active (λ c. record c { status = status })

unfoldable pub set_call_history : List Json → CallState → CallState
set_call_history calls s = record s { call_history = calls }

unfoldable pub add_call_to_history : Json → CallState → CallState
add_call_to_history call s = record s { call_history = call ∷ s.call_history }

abbrev pub tick_active : ℕ → Option ActiveCall → CallState → CallState
tick_active now none s = record s { timer = false }
tick_active now (some c) s = update_duration (num ((now - c.start_time) / 1000)) s

-- the interval's function, as long as the interval is set
unfoldable pub tick : ℕ → CallState → CallState
tick now s = if s.timer then tick_active now s.active_call s else s
