-- ===== src/Calling.antt =====
-- The data of backend/src/calling: calls and voicemails, with the columns of
-- backend/prisma/schema.prisma that the services use, and the events for the browser. Times are
-- milliseconds, and a cost is in millionths of a dollar, the last digit of its column. The clock of
-- the server is taken not to go back between the start of a call and its end.
pub mod Service
pub mod Voice
pub mod Status
pub mod Laws
pub mod Lifecycle
mod Examples
use callnow.Base.{
  ℕ, List, String, Option, Bool, Action, exists_where, false, find_first, insert_row, true, ◌>>=◌,
  gets, is_text, some, ◌==◌, is_some, none, ◌>>◌, ◌||◌, not, throw_if, fault, modify, pure,
}
use callnow.Numbers

pub data Direction : Type 0 where
  inbound outbound : Direction

pub record Call : Type 0 where
  pub id : String
  pub user_id : Option String
  pub provider_call_sid : Option String
  pub provider : String
  pub from_number : String
  pub to_number : String
  pub direction : Direction
  pub status : String
  pub duration_seconds : ℕ
  pub cost : Option ℕ
  pub started_at : Option ℕ
  pub ended_at : Option ℕ
  pub created_at : ℕ

pub record Voicemail : Type 0 where
  pub id : String
  pub call_id : Option String
  pub user_id : String
  pub from_number : String
  pub recording_url : String
  pub transcript : Option String
  pub transcription_source : Option String
  pub duration_seconds : Option ℕ
  pub is_read : Bool
  pub created_at : ℕ

pub data Event : Type 0 where
  call_inbound : String → String → String → String → Event
  call_status : Option String → String → String → Option ℕ → Event

-- `users` has the ids of the rows that a foreign key may name, and `tokens` the cached tokens for
-- WebRTC, whose expiry is not modelled.
pub record Store : Type 0 where
  pub numbers : callnow.Numbers.Store
  pub users : List String
  pub calls : List Call
  pub voicemails : List Voicemail
  pub tokens : List (String × String)
  pub events : List Event

-- what a webhook answers to the provider
pub data Control : Type 0 where
  dial_number : String → ℕ → Control
  dial_client : String → ℕ → String → Control
  reject : Control

unfoldable pub is_user : String → List String → Bool
is_user id users = exists_where (λ u. u == id) users

-- a foreign key that may be null
abbrev pub may_name : Option String → List String → Bool
may_name none users = true
may_name (some id) users = is_user id users

-- `findUnique` by the provider's sid
unfoldable pub find_call : String → List Call → Option Call
find_call sid = find_first (λ c. is_text c.provider_call_sid sid)

unfoldable pub has_sid : Option String → List Call → Bool
has_sid none calls = false
has_sid (some sid) calls = is_some (find_call sid calls)

-- `call.create`: a row that repeats a sid, or names a user that is not there, is rejected.
unfoldable pub create_call : Call → Action Store Call
create_call c = do
  taken ← gets (λ s. has_sid c.provider_call_sid s.calls || not (may_name c.user_id s.users))
  throw_if taken fault
  modify (λ s. record s { calls = insert_row c s.calls })
  pure c

-- `voicemail.create`, likewise
unfoldable pub create_voicemail : Voicemail → Action Store Voicemail
create_voicemail v = do
  known ← gets (λ s. is_user v.user_id s.users)
  throw_if (not known) fault
  modify (λ s. record s { voicemails = insert_row v s.voicemails })
  pure v

abbrev pub emit : Event → Store → Store
emit e s = record s { events = insert_row e s.events }
