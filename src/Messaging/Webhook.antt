-- ===== src/Messaging/Webhook.antt =====
-- backend/src/messaging/webhooks/sms-webhook.controller.ts: inbound messages and the provider's
-- reports of a message's status. The provider's parsers are not modelled: the handlers start from
-- the normalised request.
use Prim.Native.Char.{code}
use mathlib.Core.List.{◌∷◌, []}
use Prim.Native.String.{◌∷◌, []}
use Prim.Native.String
use callnow.Base.{
  ℕ, List, String, Option, Bool, Action, [], find_first, if◌then◌else◌, map_option, pure, some,
  update_where, ◌>>=◌, ◌||◌, exists_where, gets, is_text, leb, true, truthy, ◌++◌, ◌==◌, false,
  none, ◌&&◌, ◌+◌, ◌>>◌, eqb, insert_row, modify, ◌-◌,
}
use callnow.Messaging.{
  Store, Message, Conversation, emit, find_or_create_conversation, inbound, message_status,
  add_message, message_new,
}
use callnow.Dialer.{DncEntry}
use callnow.Dialer.Text.{codes, trim}
use callnow.Numbers.{get_user_by_number, Provider}

pub record InboundMessage : Type 0 where
  pub provider_message_sid : String
  pub from : String
  pub to : String
  pub body : String
  pub media_urls : List String

pub record StatusCallback : Type 0 where
  pub provider_sid : String
  pub status : String

-- The code points of one letter in upper case, where these are ASCII capitals: of an ASCII letter,
-- of dotless i, of long s, and of the letters that become two or three. Other characters become or
-- stay ones that no word below has.
unfoldable pub upper : ℕ → List ℕ
upper c =
    if leb 97 c && leb c 122
    then (c - 32) ∷ []
    else if eqb c 305
    then 73 ∷ []
    else if eqb c 383
    then 83 ∷ []
    else if eqb c 223
    then 83 ∷ 83 ∷ []
    else if eqb c 64256
    then 70 ∷ 70 ∷ []
    else if eqb c 64257
    then 70 ∷ 73 ∷ []
    else if eqb c 64258
    then 70 ∷ 76 ∷ []
    else if eqb c 64259
    then 70 ∷ 70 ∷ 73 ∷ []
    else if eqb c 64260
    then 70 ∷ 70 ∷ 76 ∷ []
    else if eqb c 64261 || eqb c 64262
    then 83 ∷ 84 ∷ []
    else c ∷ []

-- `s.toUpperCase()`, as code points
unfoldable pub to_upper_case : String → List ℕ
unfolding upper
to_upper_case String.[] = []
to_upper_case (String.◌∷◌ c s) = upper (code c) ++ to_upper_case s

abbrev pub same_codes : List ℕ → List ℕ → Bool
same_codes [] [] = true
same_codes [] (d ∷ ds) = false
same_codes (c ∷ cs) [] = false
same_codes (c ∷ cs) (d ∷ ds) = eqb c d && same_codes cs ds

-- `body.toUpperCase().trim()` against the five words; no white space has another upper case, so the
-- two calls may change places.
unfoldable pub is_opt_out : String → Bool
unfolding to_upper_case codes trim
is_opt_out body =
    let word = to_upper_case (trim body) in
    same_codes word (codes "STOP")
    || same_codes word (codes "UNSUBSCRIBE")
    || same_codes word (codes "CANCEL")
    || same_codes word (codes "END")
    || same_codes word (codes "QUIT")

-- `upsert` by user and telephone number
unfoldable pub opt_out : ℕ → String → String → String → String → List DncEntry → List DncEntry
opt_out now id user_id phone body entries =
    if exists_where (λ e. e.user_id == user_id && e.phone == phone) entries
    then update_where (λ e. e.user_id == user_id && e.phone == phone)
        (λ e. record e { source = "campaign_opt_out" }) entries
    else insert_row
        (record {
          id = id;
          user_id = user_id;
          phone = phone;
          source = "campaign_opt_out";
          reason = some (String.◌++◌ "Opted out via SMS: " body);
          created_at = now;
        })
        entries

unfoldable pub count_unread : ℕ → String → List Conversation → List Conversation
count_unread now id =
    update_where (λ c. c.id == id)
      (λ c. record c { last_message_at = some now; unread_count = c.unread_count + 1 })

unfoldable pub find_sid : String → List Message → Option Message
find_sid sid = find_first (λ m. is_text m.provider_sid sid)

unfoldable pub set_status : String → String → List Message → List Message
set_status id status = update_where (λ m. m.id == id) (λ m. record m { status = status })

-- the user of a message's conversation
unfoldable pub owner_of : String → List Conversation → Option String
owner_of id conversations = map_option (λ c. c.user_id) (find_first (λ c. c.id == id) conversations)

module _ (p : Provider) (redis : Bool) where
  -- a call of the numbers service, on its part of the store
  unfoldable pub lookup_owner : String → Action Store (Option String)
  unfolding get_user_by_number
  lookup_owner number s =
      let (r, numbers) = get_user_by_number p redis number s.numbers in
      (r, record s { numbers = numbers })

  abbrev pub inbound_row : ℕ → String → InboundMessage → Conversation → Message
  inbound_row now mid m c = record {
    id = mid;
    conversation_id = c.id;
    provider_sid = some m.provider_message_sid;
    provider = p.name;
    direction = inbound;
    body = some m.body;
    media_urls = m.media_urls;
    status = "delivered";
    scheduled_at = none;
    created_at = now;
  }

  -- what is done once the owner is known; `did` is the id for a new do-not-call entry
  unfoldable pub receive :
      ℕ → String → String → String → InboundMessage → String → Action Store (Unit {0})
  receive now cid mid did m owner = do
    c ← find_or_create_conversation now cid owner m.to m.from
    modify (add_message (inbound_row now mid m c))
    modify (λ s. record s { conversations = count_unread now c.id s.conversations })
    modify (emit (message_new owner (inbound_row now mid m c)))
    modify (λ s. record s {
      dnc = if is_opt_out m.body then opt_out now did owner m.from m.body s.dnc else s.dnc;
    })

  abbrev pub receive_for :
      ℕ → String → String → String → InboundMessage → Option String → Action Store (Unit {0})
  receive_for now cid mid did m none = pure tt
  receive_for now cid mid did m (some owner) =
      if truthy owner then receive now cid mid did m owner else pure tt

  unfoldable pub handle_inbound_sms :
      ℕ → String → String → String → InboundMessage → Action Store (Unit {0})
  unfolding lookup_owner receive
  handle_inbound_sms now cid mid did m = do
    owner ← lookup_owner m.to
    receive_for now cid mid did m owner

-- A message always has a conversation, by the foreign key; without one the event is left out here.
abbrev pub announce_status : Message → String → Option String → Store → Store
announce_status m status none s = s
announce_status m status (some user_id) s = emit (message_status user_id m.id status) s

abbrev pub update_status : String → Option Message → Action Store Bool
update_status status none = pure true
update_status status (some m) = do
  modify (λ s. record s { messages = set_status m.id status s.messages })
  modify (λ s. announce_status m status (owner_of m.conversation_id s.conversations) s)
  pure true

unfoldable pub handle_sms_status : StatusCallback → Action Store Bool
handle_sms_status report = do
  m ← gets (λ s. find_sid report.provider_sid s.messages)
  update_status report.status m
