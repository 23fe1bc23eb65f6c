-- ===== src/Browser/Examples.antt =====
-- Runs of the gateways and of the browser's stores.
use callnow.Messaging
use callnow.Base.{
  List, String, [], ◌∷◌, none, some, true, refl, ◌≡◌, Option, if◌then◌else◌, ◌==◌, false, ◌+◌, inl,
  ◌↔◌, ◌⊎◌,
}
use callnow.Browser.{str}
use callnow.Browser.Gateways.{Socket, Server, user_room, emit_message_event, envelope, message_json}
use callnow.Browser.Events.{Stores, on_event}
use callnow.Messaging.{Message, message_status, message_new}
use callnow.Browser.Calls.{ActiveCall, begun, initial_calls}
use callnow.Browser.Messages.{initial_messages}
use callnow.Auth.{Claims}
use callnow.Browser.EventLaws.{
  connect, connect-verified, on_event-message_new, IsIn, IsTokenOf, IsOut,
}
use callnow.Browser.CallLaws.{
  IsConsistent, Operation, apply_all, set_incoming, accept, apply_all-IsConsistent, mute,
  start_tick,
}
use callnow.Browser.Client.{
  ClientEvent, happen_all, fails, initial_client, refresh_answered, happen, on_error, emit,
  take_waiting, after_refresh, settle_all, includes, post_refresh, send_again,
}
use callnow.Browser.ClientLaws.{
  IsOrderly, happen_all-accounts, answers_to, waiting_for, failures_of,
}

abbrev tab : Socket
tab = record { id = "s1"; user_id = none; rooms = []; connected = true }

abbrev own_tab : Socket
own_tab = record tab { user_id = some "u1"; rooms = "user:u1" ∷ [] }

abbrev server : Server
server = record { sockets = own_tab ∷ []; sent = [] }

abbrev ringing_call : ActiveCall
ringing_call = begun 5 (str "CA1") (str "+15550001") (str "+15550002") "ringing"

abbrev stores : Stores
stores = record {
  messages = initial_messages;
  calls = record initial_calls { active_call = some ringing_call; timer = true };
}

abbrev row : Message
row = record {
  id = "m1";
  conversation_id = "c1";
  provider_sid = some "SM1";
  provider = "twilio";
  direction = callnow.Messaging.Direction.inbound;
  body = some "hello";
  media_urls = [];
  status = "received";
  scheduled_at = none;
  created_at = 10;
}

on_event-message_new_example :
    ((emit_message_event (message_new "u1" row) server).sent
      ≡ ("s1", "message:new", envelope "message:new" (message_json row)) ∷ [])
    × (on_event "message:new" (envelope "message:new" (message_json row)) stores ≡ none)
unfolding user_room
on_event-message_new_example = on_event-message_new "u1" row server stores

abbrev user_claims : Claims
user_claims = record {
  sub = "u1";
  email = "ann@example.org";
  role = "user";
  step = none;
  kind = some "access";
}

abbrev verify : String → Option Claims
verify token =
    if token == "good"
    then some user_claims
    else if token == "half"
    then some (record user_claims { step = some "2fa" })
    else none

good_token : IsTokenOf verify (some "good") none "u1"
good_token = record {
  shown = "good";
  claims = user_claims;
  presents = inl (refl, λ e. cc);
  genuine = refl;
  complete = λ e. cc;
  owned = refl;
  named = λ e. cc;
}

connect-verified_example :
    (IsIn "u1" (connect verify (some "good") none tab) ↔ IsTokenOf verify (some "good") none "u1")
    × (IsOut (connect verify (some "good") none tab)
        ⊎ ((v : String) × IsIn v (connect verify (some "good") none tab)))
connect-verified_example = connect-verified verify (some "good") none tab "u1" refl refl refl

good_token_connects : IsIn "u1" (connect verify (some "good") none tab)
good_token_connects =
    ((connect-verified verify (some "good") none tab "u1" refl refl refl).0).1 good_token

abbrev one_call : List Operation
one_call =
    set_incoming (some (record { call_sid = str "CA1"; from = str "a"; to = str "b" }))
    ∷ accept 5
    ∷ mute
    ∷ start_tick 2006
    ∷ []

apply_all-IsConsistent_example : IsConsistent (apply_all one_call initial_calls)
apply_all-IsConsistent_example = apply_all-IsConsistent one_call

-- two requests are refused while one refresh is under way, which then succeeds
abbrev two_refused : List ClientEvent
two_refused =
    fails (some 401) (record { id = 1; url = "/messages"; retry = false })
    ∷ fails (some 401) (record { id = 2; url = "/calls"; retry = false })
    ∷ refresh_answered 0 true
    ∷ []

-- The refresh is asked for once; its request is sent again first, then the one that waited.
two_refused_effects :
    (happen_all two_refused initial_client).effects
    ≡ post_refresh 1 ∷ send_again 1 ∷ send_again 2 ∷ []
unfolding happen_all happen on_error emit take_waiting after_refresh settle_all includes
two_refused_effects = refl

happen_all-accounts_example :
    IsOrderly (happen_all two_refused initial_client)
    × (answers_to 2 (happen_all two_refused initial_client).effects
          + waiting_for 2 (happen_all two_refused initial_client).failed_queue
          + waiting_for 2 (happen_all two_refused initial_client).refreshing
        ≡ failures_of 2 two_refused)
happen_all-accounts_example = happen_all-accounts 2 two_refused
