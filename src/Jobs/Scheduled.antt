-- ===== src/Jobs/Scheduled.antt =====
-- backend/src/jobs/scheduled-message.job.ts. The column `error_code`, which nothing reads, is left
-- out. The database chooses which due rows, and in which order, it answers: they are an argument.
use callnow.Base.{
  ℕ, Bool, List, Option, String, false, find_first, find_many, some, true, ◌&&◌, ◌∷◌, [],
  insert_row, leb, none, or_text, update_where, ◌==◌, is_some,
}
use callnow.Messaging.{
  Message, Store, Carrier, Conversation, Direction, Outgoing, outbound, inbound,
}

abbrev pub is_outbound : Direction → Bool
is_outbound outbound = true
is_outbound inbound = false

abbrev pub is_past : ℕ → Option ℕ → Bool
is_past now none = false
is_past now (some t) = leb t now

-- the condition of the query
unfoldable pub is_due : ℕ → Message → Bool
is_due now m =
    is_past now m.scheduled_at && m.status == "queued" && is_outbound m.direction && is_some m.body

-- `include: { conversation: true }`
unfoldable pub conversation_of : Message → List Conversation → Option Conversation
conversation_of m = find_first (λ c. c.id == m.conversation_id)

abbrev pub to_send : Conversation → Message → Outgoing
to_send c m = record {
  from = c.from_number;
  to = c.to_number;
  body = or_text m.body "";
  media_urls = some m.media_urls;
}

-- the row after the `update` of the `try` or of the `catch`
unfoldable pub settle : Option String → Message → Message
settle (some sid) m = record m { status = "sent"; provider_sid = some sid }
settle none m = record m { status = "failed" }

unfoldable pub set_settled : Option String → String → List Message → List Message
unfolding settle
set_settled sid id = update_where (λ m. m.id == id) (settle sid)

module _ (carrier : Carrier) where
  abbrev pub send_pending : Message → Option Conversation → Store → Store
  send_pending m none s = s
  send_pending m (some c) s = record s {
    outbox = insert_row (to_send c m) s.outbox;
    messages = set_settled (carrier.send_message (to_send c m)) m.id s.messages;
  }

  -- the loop
  unfoldable pub send_all : List Message → Store → Store
  send_all [] s = s
  send_all (m ∷ ms) s = send_all ms (send_pending m (conversation_of m s.conversations) s)

  -- `pick` is the database's choice of at most 100 of the rows that are due.
  unfoldable pub run : ℕ → (List Message → List Message) → Store → Store
  run now pick s = send_all (pick (find_many (is_due now) s.messages)) s
