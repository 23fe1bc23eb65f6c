-- ===== src/Messaging/Inbox.antt =====
-- backend/src/messaging/webhooks/sms-webhook.controller.ts: an inbound message's conversation, its
-- count of unread messages, and the opt-out, which the dialer's campaigns keep to.
use callnow.Base.{
  ℕ, List, String, Option, Bool, some, none, ◌≡◌, ok, true, ◌+◌, arith, insert_row, eq_refl, false,
  Option-cases, ◌∷◌, [], inl, inr, find_first-append_none, find_first-update_where, ◌==◌, ◌&&◌, ◌∙◌,
  refl,
}
use callnow.Messaging.{Store, Conversation, find_conversation, DncEntry, new_conversation}
use callnow.Messaging.Webhook.{
  receive, handle_inbound_sms, lookup_owner, InboundMessage, opt_out, is_opt_out, inbound_row,
  count_unread,
}
use callnow.Dialer.CsvValidator.{has_phone, phone_of}
use callnow.Dialer.Campaigns.{dnc_phones, is_callable}
use callnow.Numbers.{Provider}
use callnow.Dialer.{DncEntry, Row}

unfoldable pub unread_of : Option Conversation → ℕ
unread_of none = 0
unread_of (some c) = c.unread_count

find-count_unread :
    (now : ℕ) (user_id from to : String) (rows : List Conversation) (c : Conversation)
    → find_conversation user_id from to rows ≡ some c
    → find_conversation user_id from to (count_unread now c.id rows)
      ≡ some (record c { last_message_at = some now; unread_count = c.unread_count + 1 })
unfolding find_conversation count_unread
find-count_unread now user_id from to rows c found =
    find_first-update_where
      (λ d. d.user_id == user_id && d.from_number == from && d.to_number == to) (λ d. d.id == c.id)
      (λ d. record d { last_message_at = some now; unread_count = d.unread_count + 1 }) rows c
      (λ d. refl) found
    ∙ rw (eq_refl c.id) refl

find-new_conversation :
    (now : ℕ) (id user_id from to : String) (rows : List Conversation)
    → find_conversation user_id from to rows ≡ none
    → find_conversation user_id from to (insert_row (new_conversation now id user_id from to) rows)
      ≡ some (new_conversation now id user_id from to)
unfolding find_conversation new_conversation
find-new_conversation now id user_id from to rows absent =
    find_first-append_none (λ d. d.user_id == user_id && d.from_number == from && d.to_number == to)
      rows (new_conversation now id user_id from to) absent
    ∙ rw (eq_refl user_id, eq_refl from, eq_refl to) refl

-- A message from a number goes to the conversation of the owner, the called number and the sender,
-- a new one if there is none, and makes one more unread message there; the row of the message is in
-- that conversation.
pub receive-unread :
    (p : Provider) (redis : Bool) (now : ℕ) (cid mid did : String) (m : InboundMessage)
    (owner : String) (s : Store)
    → let after = (receive p redis now cid mid did m owner s).1 in
      (c : Conversation) × (find_conversation owner m.to m.from after.conversations ≡ some c)
      × (c.unread_count ≡ unread_of (find_conversation owner m.to m.from s.conversations) + 1)
      × (after.messages ≡ insert_row (inbound_row p redis now mid m c) s.messages)
unfolding receive unread_of new_conversation
receive-unread p redis now cid mid did m owner s =
    elim (Option-cases (find_conversation owner m.to m.from s.conversations)) [
      | inl new ↦
          let c = new_conversation now cid owner m.to m.from in
          let created = find-new_conversation now cid owner m.to m.from s.conversations new in
          let counted =
            find-count_unread now owner m.to m.from (insert_row c s.conversations) c created in
          (
            record c { last_message_at = some now; unread_count = c.unread_count + 1 },
            ground (arith, counted),
            ground arith,
            ground arith,
          )
      | inr (c, found) ↦ (
        record c { last_message_at = some now; unread_count = c.unread_count + 1 },
        ground (arith, find-count_unread now owner m.to m.from s.conversations c found),
        ground arith,
        ground arith,
      )
    ]

has_phone-opt_out :
    (now : ℕ) (id user_id phone body : String) (entries : List DncEntry)
    → has_phone phone (dnc_phones user_id (opt_out now id user_id phone body entries)) ≡ true
unfolding has_phone dnc_phones opt_out
has_phone-opt_out now id user_id phone body [] = ground (arith, eq_refl user_id, eq_refl phone)
has_phone-opt_out now id user_id phone body (e ∷ entries) =
    ground
      (arith, eq_refl user_id, eq_refl phone, has_phone-opt_out now id user_id phone body entries)

-- An inbound message that is one of the five words leaves its sender on the owner's do-not-call
-- list: against the list as it stands then, no row of a file with the sender's number is called.
pub receive-opt_out :
    (p : Provider) (redis : Bool) (now : ℕ) (cid mid did : String) (m : InboundMessage)
    (owner : String) (s : Store) (column : String) (r : Row)
    → is_opt_out m.body ≡ true
    → phone_of column r ≡ m.from
    → is_callable (dnc_phones owner (receive p redis now cid mid did m owner s).1.dnc) column r
      ≡ false
unfolding receive is_callable
receive-opt_out p redis now cid mid did m owner s column r h e =
    ground (arith, has_phone-opt_out now did owner m.from m.body s.dnc)

-- A message to a number that nobody owns is dropped: no row is written.
pub handle_inbound_sms-unowned :
    (p : Provider) (redis : Bool) (now : ℕ) (cid mid did : String) (m : InboundMessage) (s : Store)
    → (lookup_owner p redis m.to s).0 ≡ ok none
    → let after = (handle_inbound_sms p redis now cid mid did m s).1 in
      (after.messages ≡ s.messages) × (after.conversations ≡ s.conversations) × (after.dnc ≡ s.dnc)
unfolding handle_inbound_sms lookup_owner
handle_inbound_sms-unowned p redis now cid mid did m s h =
    (ground arith, ground arith, ground arith)
