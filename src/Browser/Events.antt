-- ===== src/Browser/Events.antt =====
-- frontend/src/lib/websocket.ts: what the socket's handlers do to the stores. A handler that throws
-- gives `none`; the stores are then as they were.
use callnow.Base.{Option, String, if◌then◌else◌, map_option, some, ◌==◌, none, true, false}
use callnow.Browser.{Json, boolean, get, same, num, undefined, str, object}
use callnow.Browser.Messages.{MessageState, increment_unread, update_message_status, add_message}
use callnow.Browser.Calls.{
  CallState, ActiveCall, set_call_status, set_incoming_call, update_duration,
}
use callnow.Browser.{null}
use callnow.Dialer.Text.{decimal, decimal_text}

pub record Stores : Type 0 where
  pub messages : MessageState
  pub calls : CallState

-- a value as the key of a record
abbrev pub key_of : Json → String
key_of undefined = "undefined"
key_of null = "null"
key_of (boolean true) = "true"
key_of (boolean false) = "false"
key_of (num n) = decimal_text (decimal n)
key_of (str s) = s
key_of (object fs) = "[object Object]"

abbrev pub map_messages : (MessageState → Option MessageState) → Stores → Option Stores
map_messages f s = map_option (λ m. record s { messages = m }) (f s.messages)

abbrev pub and_then : {A B : Type 0} → Option A → (A → Option B) → Option B
and_then none f = none
and_then (some a) f = f a

unfoldable pub on_message_new : Json → Stores → Option Stores
on_message_new packet s = and_then (get "conversationId" packet) (λ id.
    and_then (get "message" packet) (λ m.
      map_messages (λ ms. map_option (increment_unread (key_of id)) (add_message (key_of id) m ms))
        s))

unfoldable pub on_message_status : Json → Stores → Option Stores
on_message_status packet s = and_then (get "messageId" packet) (λ id.
    and_then (get "status" packet)
      (λ status. some (record s { messages = update_message_status id status s.messages })))

unfoldable pub on_call_inbound : Json → Stores → Option Stores
on_call_inbound packet s = and_then (get "callSid" packet) (λ sid.
    and_then (get "from" packet) (λ from. and_then (get "to" packet) (λ to. some (record s {
      calls = set_incoming_call (some (record { call_sid = sid; from = from; to = to })) s.calls;
    }))))

-- `activeCall?.callSid`
abbrev pub active_sid : Option ActiveCall → Json
active_sid none = undefined
active_sid (some c) = c.call_sid

abbrev pub report_duration : Json → CallState → CallState
report_duration duration calls =
    if same duration undefined then calls else update_duration duration calls

unfoldable pub on_call_status : Json → Stores → Option Stores
on_call_status packet s = and_then (get "callSid" packet) (λ sid.
    and_then (get "status" packet) (λ status. and_then (get "duration" packet) (λ duration. some (
      if same (active_sid s.calls.active_call) sid
      then record s { calls = report_duration duration (set_call_status status s.calls) }
      else s))))

-- the handlers that `connectWebSocket` registers
unfoldable pub on_event : String → Json → Stores → Option Stores
unfolding on_message_new on_message_status on_call_inbound on_call_status
on_event event packet s =
    if event == "message:new"
    then on_message_new packet s
    else if event == "message:status"
    then on_message_status packet s
    else if event == "call:inbound"
    then on_call_inbound packet s
    else if event == "call:status"
    then on_call_status packet s
    else some s
