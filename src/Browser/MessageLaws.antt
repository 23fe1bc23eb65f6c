-- ===== src/Browser/MessageLaws.antt =====
-- What the browser's store of messages keeps: each message once, and the counts of unread ones.
use callnow.Base.{
  List, String, ◌≡◌, if◌then◌else◌, true, some, ◌==◌, [], insert_row, ◌∷◌, arith, false, truthy,
  ◌+◌, eq_iff, refl, eq_refl, Bool-cases, sym, inl, inr, exists-insert_last, ◌∙◌, ap,
}
use callnow.Browser.{Json, get, str}
use callnow.Browser.Messages.{
  add_inbound_message, add_message, at_or, is_duplicate, increment_unread, put, MessageState,
  append_message, has_value, bump_unless_active,
}
use callnow.Browser.Events.{on_message_new, Stores}

module _ {A : Type 0} where
  at_or-put :
      (j k : String) (d v : A) (kvs : List (String × A))
      → at_or j d (put k v kvs) ≡ (if k == j then v else at_or j d kvs)
  unfolding at_or put
  at_or-put j k d v [] = refl
  at_or-put j k d v ((i, w) ∷ kvs) =
      ground (arith, eq_iff i k, eq_iff k i, eq_iff i j, eq_iff k j, at_or-put j k d v kvs)

-- After a message is added, a message with its sid is there.
added_duplicate :
    (id x : String) (m : Json) (s : MessageState)
    → get "providerSid" m ≡ some (str x)
    → truthy x ≡ true
    → is_duplicate (str x) (at_or id [] (append_message id m s).messages) ≡ true
unfolding is_duplicate
added_duplicate id x m s sid named =
    let there = at_or-put id id [] (insert_row m (at_or id [] s.messages)) s.messages in
    let last =
      exists-insert_last (has_value "providerSid" (str x)) m (at_or id [] s.messages)
        (rw (has_value, sid) (eq_refl x)) in
    ground (arith, there, last, eq_refl id)

-- A message with a sid that arrives again at a conversation, is not added again.
pub add_message-again :
    (id x : String) (m : Json) (s t : MessageState)
    → get "providerSid" m ≡ some (str x)
    → truthy x ≡ true
    → add_message id m s ≡ some t
    → add_message id m t ≡ some t
unfolding add_message
add_message-again id x m s t sid named once =
    elim (Bool-cases (is_duplicate (str x) (at_or id [] s.messages))) [
      | inl shown ↦ let kept : s ≡ t = ground arith in rw (sym kept) (once ∙ ap some (sym kept))
      | inr new ↦
          let after : append_message id m s ≡ t = ground arith in
          let there : is_duplicate (str x) (at_or id [] t.messages) ≡ true =
            rw (sym after) (added_duplicate id x m s sid named) in
          rw (add_message, sid, there) refl
    ]

-- An inbound message with a sid that arrives again is neither added nor counted again.
pub add_inbound_message-again :
    (id x : String) (m : Json) (s t : MessageState)
    → get "providerSid" m ≡ some (str x)
    → truthy x ≡ true
    → add_inbound_message id m s ≡ some t
    → add_inbound_message id m t ≡ some t
unfolding add_inbound_message
add_inbound_message-again id x m s t sid named once =
    elim (Bool-cases (is_duplicate (str x) (at_or id [] s.messages))) [
      | inl shown ↦ let kept : s ≡ t = ground arith in rw (sym kept) (once ∙ ap some (sym kept))
      | inr new ↦
          let after : bump_unless_active id (append_message id m s) ≡ t = ground arith in
          let there : is_duplicate (str x) (at_or id [] t.messages) ≡ true =
            rw (sym after) (added_duplicate id x m s sid named) in
          rw (add_inbound_message, sid, there) refl
    ]

-- A new message is added at the end of its conversation, and other conversations stay.
pub add_message-at_or :
    (id j : String) (m sid : Json) (s t : MessageState)
    → get "providerSid" m ≡ some sid
    → is_duplicate sid (at_or id [] s.messages) ≡ false
    → add_message id m s ≡ some t
    → at_or j [] t.messages
      ≡ (if id == j then insert_row m (at_or id [] s.messages) else at_or j [] s.messages)
unfolding add_message
add_message-at_or id j m sid s t named new added =
    let after : append_message id m s ≡ t = ground arith in
    rw (sym after) (at_or-put j id [] (insert_row m (at_or id [] s.messages)) s.messages)

-- A packet that is built as the handler reads it counts as unread every time it arrives, also where
-- the message is shown already, and also in the conversation that is open.
pub on_message_new-counted :
    (packet m : Json) (id x : String) (s t : Stores)
    → get "conversationId" packet ≡ some (str id)
    → get "message" packet ≡ some m
    → get "providerSid" m ≡ some (str x)
    → is_duplicate (str x) (at_or id [] s.messages.messages) ≡ true
    → on_message_new packet s ≡ some t
    → (t.messages.messages ≡ s.messages.messages)
      × (at_or id 0 t.messages.unread_counts ≡ at_or id 0 s.messages.unread_counts + 1)
unfolding on_message_new add_message increment_unread
on_message_new-counted packet m id x s t to_id of_m sid shown counted = (
  ground arith,
  ground (
    arith,
    at_or-put id id 0 (at_or id 0 s.messages.unread_counts + 1) s.messages.unread_counts,
    eq_refl id,
  ),
)
