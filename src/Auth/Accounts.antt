-- ===== src/Auth/Accounts.antt =====
-- auth.service.ts: `register`, `verifyEmail`, `login` and `googleLogin`.
use callnow.Base.{
  ℕ, ◌+◌, ◌*◌, Bool, true, false, not, ◌||◌, String, ◌==◌, Option, none, some, List, ltb, is_none,
  is_some, is_text, truthy, if◌then◌else◌, find_first, exists_where, insert_row, Action,
  bad_request, validation_error, unauthorized_exception, unauthorized, fault, pure, gets, or_throw,
  require, modify, throw_if, update_required, ◌>>=◌, ◌>>◌,
}
use callnow.Auth.{User, MailToken, Store, Claims, Crypto, Draw, Session, GooglePayload}
use callnow.Auth.Tokens.{issue_tokens}

-- 24 hours and 5 minutes, in milliseconds
abbrev pub verification_life : ℕ
verification_life = 24 * 60 * 60 * 1000

abbrev pub login_life : ℕ
login_life = 5 * 60 * 1000

-- The queries on the table of users. `email`, `google_id` and `phone` are unique columns; null
-- equals nothing.
unfoldable pub find_email : String → List User → Option User
find_email email = find_first (λ u. u.email == email)

unfoldable pub find_google : String → List User → Option User
find_google id = find_first (λ u. is_text u.google_id id)

unfoldable pub find_phone : String → List User → Option User
find_phone phone = find_first (λ u. is_text u.phone phone)

abbrev pub same_key : Option String → Option String → Bool
same_key none k = false
same_key (some a) k = is_text k a

unfoldable pub clashes : User → List User → Bool
clashes v =
    exists_where
      (λ u. u.email == v.email || same_key u.google_id v.google_id || same_key u.phone v.phone)

unfoldable pub set_verified : String → List User → Option (List User)
set_verified email =
    update_required (λ u. u.email == email) (λ u. record u { email_verified = true })

-- The queries on a table of mailed tokens: verification or password reset.
unfoldable pub find_unused : String → List MailToken → Option MailToken
find_unused hash = find_first (λ t. if t.token_hash == hash then is_none t.used_at else false)

unfoldable pub mark_used : ℕ → String → List MailToken → Option (List MailToken)
mark_used now id = update_required (λ t. t.id == id) (λ t. record t { used_at = some now })

-- `user.create`: the defaults are the schema's, and a row that repeats a unique column is rejected.
abbrev pub blank_user : String → String → User
blank_user id email = record {
  id = id;
  email = email;
  password_hash = none;
  email_verified = false;
  totp_secret = none;
  totp_enabled = false;
  google_id = none;
  phone = none;
  role = "user";
}

unfoldable pub create_user : User → Action Store User
create_user user = do
  taken ← gets (λ s. clashes user s.users)
  throw_if taken fault
  modify (λ s. record s { users = insert_row user s.users })
  pure user

-- the row of a first Google sign-in
abbrev pub google_row : Draw → GooglePayload → User
google_row d payload = record (blank_user d.user_id payload.email) {
  google_id = some payload.sub;
  email_verified = true;
}

pub record Registered : Type 0 where
  pub id : String
  pub email : String

pub data LoginResult : Type 0 where
  requires_2fa : String → LoginResult
  session : Session → LoginResult

abbrev pub login_claims : User → Claims
login_claims user = record {
  sub = user.id;
  email = user.email;
  role = user.role;
  step = some "2fa";
  kind = none;
}

module _ (c : Crypto) (now : ℕ) where
  abbrev pub new_mail_token : Draw → String → ℕ → MailToken
  new_mail_token d email life = record {
    id = d.row_id;
    email = email;
    token_hash = c.sha256 d.secret;
    expires_at = now + life;
    used_at = none;
    created_at = now;
  }

  unfoldable pub register : Draw → String → String → Action Store Registered
  unfolding create_user
  register d email password = do
    taken ← gets (λ s. is_some (find_email email s.users))
    throw_if taken (bad_request validation_error)
    user ← create_user (record (blank_user d.user_id email) {
      password_hash = some (c.bcrypt_hash d.salt password);
    })
    modify (λ s. record s {
      email_tokens = insert_row (new_mail_token d email verification_life) s.email_tokens;
    })
    pure (record { id = user.id; email = user.email })

  -- Both updates are one transaction: if either is rejected, neither is made.
  unfoldable pub verify_email : String → Action Store (Unit {0})
  verify_email token = do
    row ← require (λ s. find_unused (c.sha256 token) s.email_tokens) (bad_request validation_error)
    throw_if (ltb row.expires_at now) (bad_request validation_error)
    users ← require (λ s. set_verified row.email s.users) fault
    tokens ← require (λ s. mark_used now row.id s.email_tokens) fault
    modify (λ s. record s { users = users; email_tokens = tokens })

  -- The hash is null or a text; the empty text counts as no password too.
  unfoldable pub login : Draw → String → String → Action Store LoginResult
  unfolding issue_tokens
  login d email password = do
    user ← require (λ s. find_email email s.users) (unauthorized_exception unauthorized)
    hash ← or_throw user.password_hash (unauthorized_exception unauthorized)
    throw_if (not (truthy hash)) (unauthorized_exception unauthorized)
    throw_if (not (c.bcrypt_compare password hash)) (unauthorized_exception unauthorized)
    if user.totp_enabled
        then pure (requires_2fa (c.jwt_sign now login_life (login_claims user)))
        else (do issued ← issue_tokens c now d user.id user.email user.role; pure (session issued))

  google_user : Draw → GooglePayload → Action Store User
  unfolding create_user
  google_user d payload s = elim (find_google payload.sub s.users) [
    | some user ↦ pure user s
    | none ↦ create_user (google_row d payload) s
  ]

  unfoldable pub google_login : Draw → String → Action Store Session
  unfolding google_user issue_tokens
  google_login d id_token = do
    payload ← or_throw (c.verify_id_token id_token) (unauthorized_exception unauthorized)
    user ← google_user d payload
    issue_tokens c now d user.id user.email user.role
