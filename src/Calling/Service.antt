-- ===== src/Calling/Service.antt =====
-- backend/src/calling/calling.service.ts.
use callnow.Base.{
  ℕ, List, String, Option, Bool, Action, find_first, gets, some, true, update_where, ◌>>=◌,
  find_many, none, require, ◌==◌, ◌>>◌, is_text, not_found_exception, throw_if, ◌&&◌, not,
  not_found, modify, or_throw, pure, fault, if◌then◌else◌, false,
}
use callnow.Calling.{Call, Voicemail, Store, Direction, create_call, inbound, is_user, outbound}
use callnow.Dialer.Campaigns.{Page, paginate}
use callnow.Numbers.{cache_set}

unfoldable pub find_voicemail : String → String → List Voicemail → Option Voicemail
find_voicemail id user_id = find_first (λ v. v.id == id && v.user_id == user_id)

unfoldable pub set_read : String → List Voicemail → List Voicemail
set_read id = update_where (λ v. v.id == id) (λ v. record v { is_read = true })

abbrev pub is_direction : Option Direction → Direction → Bool
is_direction none d = true
is_direction (some inbound) inbound = true
is_direction (some inbound) outbound = false
is_direction (some outbound) inbound = false
is_direction (some outbound) outbound = true

-- `generate_client_token` is the provider's: a token and its life in seconds, or `none` where it
-- throws. `redis` says whether Redis answers.
unfoldable pub get_call_token :
    (String → Option (String × ℕ)) → Bool → String → Action Store (String × ℕ)
get_call_token generate_client_token redis user_id = do
  known ← gets (λ s. is_user user_id s.users)
  throw_if (not known) (not_found_exception not_found)
  issued ← or_throw (generate_client_token user_id) fault
  modify
      (λ s. record s { tokens = if redis then cache_set user_id issued.0 s.tokens else s.tokens })
  pure issued

-- `sort` orders the rows, newest first.
unfoldable pub get_call_history :
    (List Call → List Call) → String → ℕ → ℕ → Option Direction → Action Store (Page Call)
get_call_history sort user_id page limit direction = gets (λ s. paginate page limit (
    sort
      (find_many (λ c. is_text c.user_id user_id && is_direction direction c.direction) s.calls)))

unfoldable pub create_call_record :
    ℕ → String → String → String → String → String → String → Direction → Action Store Call
unfolding create_call
create_call_record now id user_id sid provider from to direction = create_call (record {
  id = id;
  user_id = some user_id;
  provider_call_sid = some sid;
  provider = provider;
  from_number = from;
  to_number = to;
  direction = direction;
  status = "initiated";
  duration_seconds = 0;
  cost = none;
  started_at = some now;
  ended_at = none;
  created_at = now;
})

unfoldable pub get_voicemails :
    (List Voicemail → List Voicemail) → String → Action Store (List Voicemail)
get_voicemails sort user_id = gets (λ s. sort (find_many (λ v. v.user_id == user_id) s.voicemails))

unfoldable pub mark_voicemail_read : String → String → Action Store Voicemail
mark_voicemail_read user_id id = do
  v ← require (λ s. find_voicemail id user_id s.voicemails) (not_found_exception not_found)
  modify (λ s. record s { voicemails = set_read id s.voicemails })
  pure (record v { is_read = true })

unfoldable pub get_voicemail_recording : String → String → Action Store String
get_voicemail_recording user_id id = do
  v ← require (λ s. find_voicemail id user_id s.voicemails) (not_found_exception not_found)
  pure v.recording_url
