-- ===== src/Browser/Messages.antt =====
-- frontend/src/store/messageStore.ts. A record by conversation is an association list; the messages
-- in it are objects.
use callnow.Base.{
  ℕ, Bool, List, Option, String, [], if◌then◌else◌, map, insert_row, is_text, none, ◌+◌, ◌∷◌, false,
  some, ◌&&◌, ◌==◌, exists_where,
}
use callnow.Browser.{Json, Fields, get, is_truthy, spread, str, field, no_fields, same}

pub record MessageState : Type 0 where
  pub conversations : List Json
  pub active_conversation_id : Option String
  pub messages : List (String × List Json)
  pub unread_counts : List (String × ℕ)
  pub is_loading_conversations : Bool
  pub is_loading_messages : Bool

abbrev pub initial_messages : MessageState
initial_messages = record {
  conversations = [];
  active_conversation_id = none;
  messages = [];
  unread_counts = [];
  is_loading_conversations = false;
  is_loading_messages = false;
}

module _ {A : Type 0} where
  -- `o[k]`, and `d` where it is missing; a count of 0 is 0 either way
  unfoldable pub at_or : String → A → List (String × A) → A
  at_or k d [] = d
  at_or k d ((j, v) ∷ kvs) = if j == k then v else at_or k d kvs

  -- `{ ...o, [k]: v }`
  unfoldable pub put : String → A → List (String × A) → List (String × A)
  put k v [] = (k, v) ∷ []
  put k v ((j, w) ∷ kvs) = if j == k then (j, v) ∷ kvs else (j, w) ∷ put k v kvs

abbrev pub set_conversations : List Json → MessageState → MessageState
set_conversations list s = record s { conversations = list }

abbrev pub set_active_conversation : Option String → MessageState → MessageState
set_active_conversation id s = record s { active_conversation_id = id }

unfoldable pub set_messages : String → List Json → MessageState → MessageState
set_messages id list s = record s { messages = put id list s.messages }

abbrev pub has_value : String → Json → Json → Bool
has_value k v m = elim (get k m) [ none ↦ false | some w ↦ same w v ]

-- `message.providerSid && existing.some(…)`
unfoldable pub is_duplicate : Json → List Json → Bool
is_duplicate sid existing = is_truthy sid && exists_where (has_value "providerSid" sid) existing

abbrev pub append_message : String → Json → MessageState → MessageState
append_message id m s = record s {
  messages = put id (insert_row m (at_or id [] s.messages)) s.messages;
}

-- `none` where the message is undefined or null, and reading its sid throws
unfoldable pub add_message : String → Json → MessageState → Option MessageState
unfolding is_duplicate
add_message id m s = elim (get "providerSid" m) [
  | none ↦ none
  | some sid ↦ some (if is_duplicate sid (at_or id [] s.messages) then s else append_message id m s)
]

unfoldable pub mark_read : String → MessageState → MessageState
mark_read id s = record s { unread_counts = put id 0 s.unread_counts }

unfoldable pub increment_unread : String → MessageState → MessageState
increment_unread id s = record s {
  unread_counts = put id (at_or id 0 s.unread_counts + 1) s.unread_counts;
}

abbrev pub bump_unless_active : String → MessageState → MessageState
bump_unless_active id s = record s {
  unread_counts =
      put id
        (if is_text s.active_conversation_id id
          then at_or id 0 s.unread_counts
          else at_or id 0 s.unread_counts + 1)
        s.unread_counts;
}

unfoldable pub add_inbound_message : String → Json → MessageState → Option MessageState
unfolding is_duplicate
add_inbound_message id m s = elim (get "providerSid" m) [
  | none ↦ none
  | some sid ↦ some (
      if is_duplicate sid (at_or id [] s.messages)
      then s
      else bump_unless_active id (append_message id m s))
]

abbrev pub with_status : Json → Json → Json → Json
with_status id status m =
    if has_value "id" id m then spread m (field "status" status no_fields) else m

unfoldable pub update_message_status : Json → Json → MessageState → MessageState
update_message_status id status s = record s {
  messages = map (λ kv. (kv.0, map (with_status id status) kv.1)) s.messages;
}

unfoldable pub update_conversation : String → Fields → MessageState → MessageState
update_conversation id updates s = record s {
  conversations =
      map (λ c. if has_value "id" (str id) c then spread c updates else c) s.conversations;
}

abbrev pub set_loading_conversations : Bool → MessageState → MessageState
set_loading_conversations loading s = record s { is_loading_conversations = loading }

abbrev pub set_loading_messages : Bool → MessageState → MessageState
set_loading_messages loading s = record s { is_loading_messages = loading }
