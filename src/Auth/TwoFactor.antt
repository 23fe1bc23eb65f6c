-- ===== src/Auth/TwoFactor.antt =====
-- auth.service.ts: `enable2fa` and `verify2fa`.
use callnow.Base.{
  ℕ, true, not, String, ◌==◌, Option, some, List, is_text, truthy, if◌then◌else◌, Action,
  bad_request, validation_error, fault, pure, or_throw, require, modify, throw_if, update_required,
  ◌>>=◌, ◌>>◌,
}
use callnow.Auth.{User, Store, Crypto, Draw, Session}
use callnow.Auth.Tokens.{find_user, issue_tokens}

unfoldable pub set_secret : String → String → List User → Option (List User)
set_secret id secret =
    update_required (λ u. u.id == id) (λ u. record u { totp_secret = some secret })

unfoldable pub set_enabled : String → List User → Option (List User)
set_enabled id = update_required (λ u. u.id == id) (λ u. record u { totp_enabled = true })

-- The secret is `d.secret`, in base 32; the QR code is drawn from it by a library.
unfoldable pub enable_2fa : Draw → String → Action Store String
enable_2fa d user_id = do
  users ← require (λ s. set_secret user_id d.secret s.users) fault
  modify (λ s. record s { users = users })
  pure d.secret

-- `if (!user.totpEnabled) …`
turn_on : User → Action Store (Unit {0})
turn_on user = if user.totp_enabled then pure tt else (do
  users ← require (λ s. set_enabled user.id s.users) fault
  modify (λ s. record s { users = users }))

module _ (c : Crypto) (now : ℕ) where
  unfoldable pub verify_2fa : Draw → String → String → Action Store Session
  unfolding turn_on issue_tokens
  verify_2fa d login_token code = do
    payload ← or_throw (c.jwt_verify now login_token) (bad_request validation_error)
    throw_if (not (is_text payload.step "2fa")) (bad_request validation_error)
    user ← require (λ s. find_user payload.sub s.users) (bad_request validation_error)
    secret ← or_throw user.totp_secret (bad_request validation_error)
    throw_if (not (truthy secret)) (bad_request validation_error)
    throw_if (not (c.totp_verify now secret code)) (bad_request validation_error)
    turn_on user
    issue_tokens c now d user.id user.email user.role
