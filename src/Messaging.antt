-- ===== src/Messaging.antt =====
-- The data of backend/src/messaging: conversations and messages, with the columns of
-- backend/prisma/schema.prisma that the services use, the count of sent messages in Redis, and the
-- events for the browser. Times are milliseconds; the ids of new rows are arguments of the
-- operations that make them.
pub mod Service
pub mod Webhook
pub mod Laws
pub mod Inbox
mod Examples
use callnow.Base.{
  ℕ, List, String, Option, Bool, Action, find_first, find_many, update_where, insert_row, ◌==◌,
  ◌&&◌, none, some, pure, gets, modify, ◌>>=◌, ◌>>◌,
}
use callnow.Numbers
use callnow.Dialer.{DncEntry}

pub record Conversation : Type 0 where
  pub id : String
  pub user_id : String
  pub from_number : String
  pub to_number : String
  pub contact_name : Option String
  pub unread_count : ℕ
  pub last_message_at : Option ℕ
  pub created_at : ℕ

pub data Direction : Type 0 where
  inbound outbound : Direction

pub record Message : Type 0 where
  pub id : String
  pub conversation_id : String
  pub provider_sid : Option String
  pub provider : String
  pub direction : Direction
  pub body : Option String
  pub media_urls : List String
  pub status : String
  pub scheduled_at : Option ℕ
  pub created_at : ℕ

pub record SendMessage : Type 0 where
  pub from_number : String
  pub to_number : String
  pub body : String
  pub media_urls : Option (List String)
  pub scheduled_at : Option ℕ

-- what the telephony provider is asked to send
pub record Outgoing : Type 0 where
  pub from : String
  pub to : String
  pub body : String
  pub media_urls : Option (List String)

-- The provider: `send_message` answers the sid of the message, or `none` where the call throws.
pub record Carrier : Type 0 where
  pub name : String
  pub send_message : Outgoing → Option String

pub data Event : Type 0 where
  message_new : String → Message → Event
  message_status : String → String → String → Event

-- `numbers` has the table and the cache of the numbers service; `counts` has the counter of a user
-- under `usage:<user>:sms`, whose expiry is not modelled.
pub record Store : Type 0 where
  pub numbers : callnow.Numbers.Store
  pub conversations : List Conversation
  pub messages : List Message
  pub counts : List (String × ℕ)
  pub dnc : List DncEntry
  pub outbox : List Outgoing
  pub events : List Event

-- `findUnique` by the unique key of user, own number and other number
unfoldable pub find_conversation :
    String → String → String → List Conversation → Option Conversation
find_conversation user_id from to =
    find_first (λ c. c.user_id == user_id && c.from_number == from && c.to_number == to)

unfoldable pub new_conversation : ℕ → String → String → String → String → Conversation
new_conversation now id user_id from to = record {
  id = id;
  user_id = user_id;
  from_number = from;
  to_number = to;
  contact_name = none;
  unread_count = 0;
  last_message_at = none;
  created_at = now;
}

abbrev pub found_or_created :
    ℕ → String → String → String → String → Option Conversation → Action Store Conversation
found_or_created now id user_id from to (some c) = pure c
found_or_created now id user_id from to none = do
  modify (λ s. record s {
    conversations = insert_row (new_conversation now id user_id from to) s.conversations;
  })
  pure (new_conversation now id user_id from to)

-- `findOrCreateConversation`, which the webhook has inline
abbrev pub find_or_create_conversation :
    ℕ → String → String → String → String → Action Store Conversation
find_or_create_conversation now id user_id from to = do
  found ← gets (λ s. find_conversation user_id from to s.conversations)
  found_or_created now id user_id from to found

abbrev pub add_message : Message → Store → Store
add_message m s = record s { messages = insert_row m s.messages }

abbrev pub emit : Event → Store → Store
emit e s = record s { events = insert_row e s.events }
