-- ===== src/Messaging/Service.antt =====
-- backend/src/messaging/messaging.service.ts: sending, deleting and listing messages, and
-- the search of conversations.
use callnow.Base.{
  ℕ, List, String, Option, Bool, Action, [], false, find_first, gets, none, pure, some, throw,
  update_where, ◌>>=◌, ◌>>◌, ◌∷◌, bad_request, find_many, if◌then◌else◌, leb, modify, require, ◌==◌,
  insert_row, not_found_exception, number_not_owned, validation_error, ◌&&◌, ◌+◌, exists_where, ltb,
  not_found, or_throw, throw_if, fault, length, plan_limit_exceeded, take, ◌||◌,
}
use callnow.Messaging.{
  Store, Message, SendMessage, Carrier, Conversation, Outgoing, outbound,
  find_or_create_conversation, add_message, emit, message_new,
}
use callnow.Numbers.{find_own_active}
use callnow.Dialer.Campaigns.{Page, paginate}
use callnow.Dialer.Text.{includes_text}

abbrev pub over_quota : Option ℕ → Bool
over_quota none = false
over_quota (some n) = leb 2000 n

unfoldable pub count_of : String → List (String × ℕ) → Option ℕ
count_of user_id [] = none
count_of user_id ((k, n) ∷ counts) = if k == user_id then some n else count_of user_id counts

-- `incr`: a missing counter counts from 0.
unfoldable pub increment : String → List (String × ℕ) → List (String × ℕ)
increment user_id [] = (user_id, 1) ∷ []
increment user_id ((k, n) ∷ counts) =
    if k == user_id then (k, n + 1) ∷ counts else (k, n) ∷ increment user_id counts

abbrev pub or_empty : Option (List String) → List String
or_empty none = []
or_empty (some urls) = urls

unfoldable pub touch : ℕ → String → List Conversation → List Conversation
touch now id = update_where (λ c. c.id == id) (λ c. record c { last_message_at = some now })

unfoldable pub find_user_conversation : String → String → List Conversation → Option Conversation
find_user_conversation id user_id = find_first (λ c. c.id == id && c.user_id == user_id)

-- `{ id, conversation: { userId } }`
unfoldable pub find_message : String → String → List Conversation → List Message → Option Message
find_message id user_id conversations = find_first (λ m.
    m.id == id
    && exists_where (λ c. c.id == m.conversation_id && c.user_id == user_id) conversations)

unfoldable pub set_deleted : String → List Message → List Message
set_deleted id = update_where (λ m. m.id == id) (λ m. record m { body = none; status = "deleted" })

unfoldable pub get_conversations :
    (List Conversation → List Conversation) → String → ℕ → ℕ → Action Store (Page Conversation)
get_conversations sort user_id page limit =
    gets (λ s. paginate page limit (sort (find_many (λ c. c.user_id == user_id) s.conversations)))

unfoldable pub get_messages :
    (List Message → List Message) → String → String → ℕ → ℕ → Action Store (Page Message)
get_messages sort id user_id page limit = do
  require (λ s. find_user_conversation id user_id s.conversations) (not_found_exception not_found)
  gets (λ s. paginate page limit (sort (find_many (λ m. m.conversation_id == id) s.messages)))

unfoldable pub delete_message : String → String → Action Store (Unit {0})
delete_message id user_id = do
  require (λ s. find_message id user_id s.conversations s.messages) (not_found_exception not_found)
  modify (λ s. record s { messages = set_deleted id s.messages })

-- `redis` says whether Redis answers during the request.
module _ (carrier : Carrier) (redis : Bool) where
  abbrev pub queued : ℕ → String → SendMessage → Option String → Option ℕ → Conversation → Message
  queued now mid dto sid at c = record {
    id = mid;
    conversation_id = c.id;
    provider_sid = sid;
    provider = carrier.name;
    direction = outbound;
    body = some dto.body;
    media_urls = or_empty dto.media_urls;
    status = "queued";
    scheduled_at = at;
    created_at = now;
  }

  -- the part for a message with `scheduledAt`
  abbrev pub schedule : ℕ → String → String → String → SendMessage → ℕ → Action Store Message
  schedule now cid mid user_id dto at = do
    c ← find_or_create_conversation now cid user_id dto.from_number dto.to_number
    modify (add_message (queued now mid dto none (some at) c))
    pure (queued now mid dto none (some at) c)

  abbrev pub outgoing : SendMessage → Outgoing
  outgoing dto = record {
    from = dto.from_number;
    to = dto.to_number;
    body = dto.body;
    media_urls = dto.media_urls;
  }

  abbrev pub send_now : ℕ → String → String → String → SendMessage → Action Store Message
  send_now now cid mid user_id dto = do
    modify (λ s. record s { outbox = insert_row (outgoing dto) s.outbox })
    sid ← or_throw (carrier.send_message (outgoing dto)) fault
    c ← find_or_create_conversation now cid user_id dto.from_number dto.to_number
    modify (add_message (queued now mid dto (some sid) none c))
    modify (λ s. record s { conversations = touch now c.id s.conversations })
    modify (λ s. record s { counts = if redis then increment user_id s.counts else s.counts })
    modify (emit (message_new user_id (queued now mid dto (some sid) none c)))
    pure (queued now mid dto (some sid) none c)

  abbrev pub send_or_schedule :
      ℕ → String → String → String → SendMessage → Option ℕ → Action Store Message
  send_or_schedule now cid mid user_id dto none = send_now now cid mid user_id dto
  send_or_schedule now cid mid user_id dto (some at) = schedule now cid mid user_id dto at

  -- `cid` and `mid` are the ids for a new conversation and the new message.
  unfoldable pub send_message : ℕ → String → String → String → SendMessage → Action Store Message
  send_message now cid mid user_id dto = do
    require (λ s. find_own_active dto.from_number user_id s.numbers.numbers)
        (bad_request number_not_owned)
    count ← gets (λ s. if redis then count_of user_id s.counts else none)
    throw_if (over_quota count) (bad_request plan_limit_exceeded)
    send_or_schedule now cid mid user_id dto dto.scheduled_at

  -- The loop, one recipient and its new ids at a time; the first refusal ends it.
  unfoldable pub send_each :
      ℕ → String → SendMessage → List (String × String × String) → Action Store (List Message)
  send_each now user_id dto [] = pure []
  send_each now user_id dto ((to, cid, mid) ∷ rest) = do
    m ← send_message now cid mid user_id (record dto { to_number = to })
    ms ← send_each now user_id dto rest
    pure (m ∷ ms)

  unfoldable pub send_group_message :
      ℕ
      → String
      → SendMessage
      → Option (List (String × String × String))
      → Action Store (List Message)
  send_group_message now user_id dto none = throw (bad_request validation_error)
  send_group_message now user_id dto (some recipients) =
      if ltb 10 (length recipients)
      then throw (bad_request validation_error)
      else send_each now user_id dto recipients

abbrev pub is_named : (String → String → Bool) → String → Option String → Bool
is_named has_name query none = false
is_named has_name query (some name) = has_name query name

-- The match of names without regard to case is the database's.
unfoldable pub search_conversations :
    (String → String → Bool) → String → String → Action Store (List Conversation)
search_conversations has_name user_id query = gets (λ s. take 20 (
    find_many
      (λ c.
        c.user_id == user_id
        && (is_named has_name query c.contact_name || includes_text query c.to_number))
      s.conversations))
