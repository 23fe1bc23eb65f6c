-- ===== src/Auth/EnabledUsers.antt =====
-- Which users have a second factor, under each operation of auth.service.ts.
use callnow.Auth.Accounts.{login, set_verified, create_user, google_login, register, verify_email}
use callnow.Base.{
  List, Bool, String, ℕ, ◌≡◌, exists_where, false, some, update_where, Option, arith, insert_row,
  refl, ◌∷◌, [], ◌==◌, true,
}
use callnow.Auth.{Crypto, User, Bool, Draw, String, ℕ, Store, Option}
use callnow.Auth.Password.{set_password, forgot_password, reset_password}
use callnow.Auth.TwoFactor.{enable_2fa, set_secret}
use callnow.Auth.Tokens.{issue_tokens, logout, refresh}
use callnow.Auth.Otp.{login_phone_otp}

-- some user has a second factor
unfoldable pub any_enabled : List User → Bool
any_enabled = exists_where (λ u. u.totp_enabled)

any_enabled-insert_row :
    (u : User) (users : List User)
    → u.totp_enabled ≡ false
    → any_enabled (insert_row u users) ≡ any_enabled users
unfolding any_enabled
any_enabled-insert_row u [] off = ground arith
any_enabled-insert_row u (v ∷ users) off = ground (arith, any_enabled-insert_row u users off)

any_enabled-update :
    (p : User → Bool) (f : User → User) (users : List User)
    → ((u : User) → (f u).totp_enabled ≡ u.totp_enabled)
    → any_enabled (update_where p f users) ≡ any_enabled users
unfolding any_enabled
any_enabled-update p f [] same = refl
any_enabled-update p f (u ∷ users) same = ground (arith, same u, any_enabled-update p f users same)

any_enabled-set_verified :
    (email : String) (users users' : List User)
    → set_verified email users ≡ some users'
    → any_enabled users' ≡ any_enabled users
unfolding set_verified
any_enabled-set_verified email users users' e = ground (
  arith,
  any_enabled-update (λ u. u.email == email) (λ u. record u { email_verified = true }) users
      (λ u. refl),
)

any_enabled-set_password :
    (id hash : String) (users users' : List User)
    → set_password id hash users ≡ some users'
    → any_enabled users' ≡ any_enabled users
unfolding set_password
any_enabled-set_password id hash users users' e = ground (
  arith,
  any_enabled-update (λ u. u.id == id) (λ u. record u { password_hash = some hash }) users
      (λ u. refl),
)

any_enabled-set_secret :
    (id secret : String) (users users' : List User)
    → set_secret id secret users ≡ some users'
    → any_enabled users' ≡ any_enabled users
unfolding set_secret
any_enabled-set_secret id secret users users' e = ground (
  arith,
  any_enabled-update (λ u. u.id == id) (λ u. record u { totp_secret = some secret }) users
      (λ u. refl),
)

module _ (c : Crypto) (now : ℕ) (d : Draw) where
  create_user-any_enabled :
      (v : User) (s : Store)
      → v.totp_enabled ≡ false
      → any_enabled (create_user v s).1.users ≡ any_enabled s.users
  unfolding create_user
  create_user-any_enabled v s off = ground (arith, any_enabled-insert_row v s.users off)

  issue_tokens-users :
      (id email role : String) (s : Store)
      → (issue_tokens c now d id email role s).1.users ≡ s.users
  unfolding issue_tokens
  issue_tokens-users id email role s = ground arith

  pub register-any_enabled :
      (email password : String) (s : Store)
      → any_enabled (register c now d email password s).1.users ≡ any_enabled s.users
  unfolding register
  register-any_enabled email password s = grind (arith, any_enabled-insert_row)

  pub login-users :
      (email password : String) (s : Store) → (login c now d email password s).1.users ≡ s.users
  unfolding login
  login-users email password s = ground arith

  pub google_login-any_enabled :
      (id_token : String) (s : Store)
      → any_enabled (google_login c now d id_token s).1.users ≡ any_enabled s.users
  unfolding google_login
  google_login-any_enabled id_token s = grind (arith, any_enabled-insert_row)

  pub login_phone_otp-any_enabled :
      (action phone : String) (code : Option String) (s : Store)
      → any_enabled (login_phone_otp c now d action phone code s).1.users ≡ any_enabled s.users
  unfolding login_phone_otp
  login_phone_otp-any_enabled action phone code s = grind (arith, any_enabled-insert_row)

  pub refresh-users : (token : String) (s : Store) → (refresh c now d token s).1.users ≡ s.users
  unfolding refresh
  refresh-users token s = ground arith

  pub forgot_password-users :
      (email : String) (s : Store) → (forgot_password c now d email s).1.users ≡ s.users
  unfolding forgot_password
  forgot_password-users email s = ground arith

  pub reset_password-any_enabled :
      (token password : String) (s : Store)
      → any_enabled (reset_password c now d token password s).1.users ≡ any_enabled s.users
  unfolding reset_password
  reset_password-any_enabled token password s = grind (arith, any_enabled-set_password)

pub enable_2fa-any_enabled :
    (d : Draw) (user_id : String) (s : Store)
    → any_enabled (enable_2fa d user_id s).1.users ≡ any_enabled s.users
unfolding enable_2fa
enable_2fa-any_enabled d user_id s = grind (arith, any_enabled-set_secret)

pub verify_email-any_enabled :
    (c : Crypto) (now : ℕ) (token : String) (s : Store)
    → any_enabled (verify_email c now token s).1.users ≡ any_enabled s.users
unfolding verify_email
verify_email-any_enabled c now token s = grind (arith, any_enabled-set_verified)

pub logout-users :
    (c : Crypto) (now : ℕ) (token : String) (s : Store) → (logout c now token s).1.users ≡ s.users
unfolding logout
logout-users c now token s = refl
