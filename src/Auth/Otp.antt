-- ===== src/Auth/Otp.antt =====
-- auth.service.ts: `loginPhoneOtp`, `requestPhoneOtp` and `verifyPhoneOtp`.
use Prim.Native.String
use callnow.Base.{
  ℕ, ◌+◌, ◌*◌, Bool, true, false, not, ◌&&◌, String, ◌==◌, Option, none, some, List, ltb, leb,
  is_none, or_text, if◌then◌else◌, find_newest, update_where, exists_where, insert_row, Action,
  bad_request, validation_error, rate_limited, pure, throw, gets, require, modify, throw_if, ◌>>=◌,
  ◌>>◌,
}
use callnow.Auth.{User, OtpAction, OtpCode, Store, Crypto, Draw, Session}
use callnow.Auth.Tokens.{issue_tokens}
use callnow.Auth.Accounts.{find_phone, create_user, blank_user}

-- 60 seconds and 5 minutes, in milliseconds
abbrev pub cooldown : ℕ
cooldown = 60 * 1000

abbrev pub otp_life : ℕ
otp_life = 5 * 60 * 1000

abbrev pub is_login : OtpAction → Bool
is_login OtpAction.login = true
is_login OtpAction.verify_phone = false

abbrev pub for_login : String → OtpCode → Bool
for_login phone o = o.phone == phone && is_login o.action

-- `createdAt: { gte: new Date(Date.now() - 60 * 1000) }`, with the difference taken to the left
unfoldable pub has_recent : ℕ → String → List OtpCode → Bool
has_recent now phone = exists_where (λ o. for_login phone o && leb now (o.created_at + cooldown))

unfoldable pub find_current : String → List OtpCode → Option OtpCode
find_current phone = find_newest (λ o. o.created_at) (λ o. for_login phone o && is_none o.used_at)

unfoldable pub count_attempt : String → List OtpCode → List OtpCode
count_attempt id = update_where (λ o. o.id == id) (λ o. record o { attempts = o.attempts + 1 })

unfoldable pub use_code : ℕ → String → List OtpCode → List OtpCode
use_code now id = update_where (λ o. o.id == id) (λ o. record o { used_at = some now })

abbrev pub otp_text : String → String
otp_text code = String.◌++◌ "Your VoiceLink verification code: " code

abbrev pub phone_email : String → String
phone_email phone = String.◌++◌ phone "@phone.voicelink.local"

pub data OtpResult : Type 0 where
  code_sent : OtpResult
  session : Session → OtpResult

module _ (c : Crypto) (now : ℕ) where
  abbrev pub new_otp : Draw → String → OtpCode
  new_otp d phone = record {
    id = d.row_id;
    phone = phone;
    code_hash = c.bcrypt_hash d.salt d.secret;
    action = OtpAction.login;
    attempts = 0;
    max_attempts = 5;
    expires_at = now + otp_life;
    used_at = none;
    created_at = now;
  }

  -- The code is `d.secret`. A provider that fails is logged and passed over, so the request
  -- succeeds either way; `sms_log` has what the provider was asked.
  unfoldable pub request_phone_otp : Draw → String → Action Store (Unit {0})
  request_phone_otp d phone = do
    recent ← gets (λ s. has_recent now phone s.otp_codes)
    throw_if recent (bad_request rate_limited)
    modify (λ s. record s { otp_codes = insert_row (new_otp d phone) s.otp_codes })
    modify (λ s. record s {
      sms_log = insert_row (record { to = phone; text = otp_text d.secret }) s.sms_log;
    })

  unfoldable pub phone_user : Draw → String → Action Store User
  unfolding create_user
  phone_user d phone s = elim (find_phone phone s.users) [
    | some user ↦ pure user s
    | none ↦
        create_user (record (blank_user d.user_id (phone_email phone)) { phone = some phone }) s
  ]

  unfoldable pub verify_phone_otp : Draw → String → String → Action Store Session
  unfolding phone_user issue_tokens
  verify_phone_otp d phone code = do
    row ← require (λ s. find_current phone s.otp_codes) (bad_request validation_error)
    throw_if (ltb row.expires_at now) (bad_request validation_error)
    throw_if (leb row.max_attempts row.attempts) (bad_request rate_limited)
    if not (c.bcrypt_compare code row.code_hash)
        then (do
          modify (λ s. record s { otp_codes = count_attempt row.id s.otp_codes })
          throw (bad_request validation_error))
        else (do
          modify (λ s. record s { otp_codes = use_code now row.id s.otp_codes })
          user ← phone_user d phone
          issue_tokens c now d user.id user.email user.role)

  -- `dto.action === 'request'`; the other value that the request body may have is 'verify'
  unfoldable pub login_phone_otp : Draw → String → String → Option String → Action Store OtpResult
  unfolding request_phone_otp verify_phone_otp
  login_phone_otp d action phone code =
      if action == "request"
      then (do request_phone_otp d phone; pure code_sent)
      else (do issued ← verify_phone_otp d phone (or_text code ""); pure (session issued))
