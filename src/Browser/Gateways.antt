-- ===== src/Browser/Gateways.antt =====
-- backend/src/messaging/messaging.gateway.ts, dialer/dialer.gateway.ts and
-- calling/calling.gateway.ts: who joins which room, and the packets that go to it. `verify` is
-- @nestjs/jwt's, `none` where it throws. Of a message's row the dates and the media are left out.
use Prim.Native.String
use callnow.Messaging
use callnow.Calling
use callnow.Base.{
  ℕ, List, Option, String, false, Bool, if◌then◌else◌, insert_row, some, ◌++◌, is_text, map, none,
  truthy, truthy?, ◌&&◌, exists_where, find_many, or_text, ◌==◌,
}
use callnow.Browser.{Json, object, undefined, field, num, str, no_fields, or_null}
use Prim.Native.String.{String}
use callnow.Messaging.{Message, message_new, message_status}
use callnow.Calling.{call_inbound, call_status}
use callnow.Auth.{Claims}
use callnow.Browser.{object, str}

pub record Socket : Type 0 where
  pub id : String
  pub user_id : Option String
  pub rooms : List String
  pub connected : Bool

-- `sent` has what went out: the socket, the event and the packet.
pub record Server : Type 0 where
  pub sockets : List Socket
  pub sent : List (String × String × Json)

abbrev pub disconnect : Socket → Socket
disconnect c = record c { connected = false }

abbrev pub join : String → Socket → Socket
join room c = record c { rooms = insert_row room c.rooms }

unfoldable pub user_room : String → String
user_room user_id = String.◌++◌ "user:" user_id

unfoldable pub campaign_room : String → String
campaign_room campaign_id = String.◌++◌ "campaign:" campaign_id

-- the user whom a token is for: neither a login that waits for its second factor, nor nobody
abbrev pub token_user : Option Claims → Option String
token_user none = none
token_user (some claims) =
    if is_text claims.step "2fa" then none else if truthy claims.sub then some claims.sub else none

abbrev pub verified_user : (String → Option Claims) → Option String → Option String
verified_user verify none = none
verified_user verify (some token) = if truthy token then token_user (verify token) else none

-- `auth?.token || headers?.authorization?.replace('Bearer ', '')`, where `header` is replaced already
abbrev pub handshake_token : Option String → Option String → Option String
handshake_token token header = if truthy? token then token else header

abbrev pub enter : Option String → Socket → Socket
enter none c = disconnect c
enter (some user_id) c = record (join (user_room user_id) c) { user_id = some user_id }

-- `MessagingGateway.handleConnection`
unfoldable pub handle_connection :
    (String → Option Claims) → Option String → Option String → Socket → Socket
handle_connection verify token header = enter (verified_user verify (handshake_token token header))

abbrev pub recognise : Option String → Socket → Socket
recognise none c = disconnect c
recognise (some user_id) c = record c { user_id = some user_id }

-- `DialerGateway.handleConnection`, on the same socket
unfoldable pub handle_dialer_connection :
    (String → Option Claims) → Option String → Option String → Socket → Socket
handle_dialer_connection verify token header c =
    if truthy? c.user_id
    then c
    else recognise (verified_user verify (handshake_token token header)) c

unfoldable pub handle_campaign_subscribe : Option String → Socket → Socket
handle_campaign_subscribe campaign_id c =
    if truthy? campaign_id then join (campaign_room (or_text campaign_id "")) c else c

abbrev pub is_in : String → Socket → Bool
is_in room c = c.connected && exists_where (λ r. r == room) c.rooms

-- `server.to(room).emit(event, packet)`
unfoldable pub emit_to : String → String → Json → Server → Server
emit_to room event packet s = record s {
  sent = s.sent ++ map (λ c. (c.id, event, packet)) (find_many (is_in room) s.sockets);
}

-- `{ event, data }`
unfoldable pub envelope : String → Json → Json
envelope event value = object (field "event" (str event) (field "data" value no_fields))

abbrev pub direction_text : callnow.Messaging.Direction → String
direction_text callnow.Messaging.Direction.inbound = "inbound"
direction_text callnow.Messaging.Direction.outbound = "outbound"

unfoldable pub message_json : Message → Json
message_json m = object (
    field "id" (str m.id) (
      field "conversationId" (str m.conversation_id) (
        field "providerSid" (or_null m.provider_sid) (
          field "provider" (str m.provider) (
            field "direction" (str (direction_text m.direction))
              (field "body" (or_null m.body) (field "status" (str m.status) no_fields)))))))

abbrev pub number_or_undefined : Option ℕ → Json
number_or_undefined none = undefined
number_or_undefined (some n) = num n

-- `emitNewMessage` and `emitMessageStatus`
unfoldable pub emit_message_event : callnow.Messaging.Event → Server → Server
unfolding emit_to envelope
emit_message_event (message_new user_id m) =
    emit_to (user_room user_id) "message:new" (envelope "message:new" (message_json m))
emit_message_event (message_status user_id id status) =
    emit_to (user_room user_id) "message:status" (
      envelope "message:status"
        (object (field "messageId" (str id) (field "status" (str status) no_fields))))

-- `emitInboundCall` and `emitCallStatus`; a call without a user goes to the room of 'null'
unfoldable pub emit_call_event : callnow.Calling.Event → Server → Server
unfolding emit_to envelope
emit_call_event (call_inbound user_id sid from to) = emit_to (user_room user_id) "call:inbound" (
    envelope "call:inbound" (
      object (field "callSid" (str sid) (field "from" (str from) (field "to" (str to) no_fields)))))
emit_call_event (call_status user_id sid status duration) =
    emit_to (user_room (or_text user_id "null")) "call:status" (
      envelope "call:status" (
        object (
          field "callSid" (str sid) (
            field "status" (str status)
              (field "duration" (number_or_undefined duration) no_fields)))))

unfoldable pub emit_campaign_progress : String → ℕ → ℕ → ℕ → ℕ → Server → Server
unfolding emit_to envelope
emit_campaign_progress campaign_id dialed answered failed remaining =
    emit_to (campaign_room campaign_id) "campaign:progress" (
      envelope "campaign:progress" (
        object (
          field "campaignId" (str campaign_id) (
            field "dialed" (num dialed) (
              field "answered" (num answered)
                (field "failed" (num failed) (field "remaining" (num remaining) no_fields)))))))

unfoldable pub emit_campaign_complete : String → Json → Server → Server
unfolding emit_to envelope
emit_campaign_complete campaign_id summary =
    emit_to (campaign_room campaign_id) "campaign:complete" (envelope "campaign:complete" summary)
