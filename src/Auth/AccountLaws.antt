-- ===== src/Auth/AccountLaws.antt =====
-- Signing in: auth.service.ts, `login`, `verify2fa`, `googleLogin` and `verifyEmail`, and the guard of
-- jwt.strategy.ts that their tokens meet.
use callnow.Auth.{Crypto, String, Store, ℕ, Draw, User, GooglePayload, Session, Claims, List}
use callnow.Auth.Accounts.{
  login, google_row, LoginResult, clashes, session, requires_2fa, login_life,
}
use callnow.Base.{
  String, ℕ, ◌≡◌, ok, some, true, is_text, none, err, Option-cases, false, fault, inl,
  unauthorized_exception, arith, unauthorized, inr, List, refl, ◌∷◌, eq_iff, ◌⊎◌, [], Bool-cases,
}
use callnow.Auth.Guards.{jwt_can_activate}
use callnow.Auth.TwoFactor.{verify_2fa}
use callnow.Auth.Accounts.{google_login, find_email, find_google, login_claims}
use callnow.Auth.Tokens.{access_claims, find_user, session_of}

clashes_email :
    (email : String) (v : User) (users : List User) (u : User)
    → find_email email users ≡ some u
    → v.email ≡ email
    → clashes v users ≡ true
unfolding find_email clashes
clashes_email email v [] u e same = cc
clashes_email email v (x ∷ users) u e same =
    ground (arith, eq_iff x.email email, eq_iff x.email v.email, clashes_email email v users u)

module _ (c : Crypto) where
  -- what a login that is answered has checked
  pub record Checked (email password : String) (s : Store) : Type 0 where
    pub user : User
    pub hash : String
    pub known : find_email email s.users ≡ some user
    pub stored : user.password_hash ≡ some hash
    pub right : c.bcrypt_compare password hash ≡ true

  -- A login is answered only for a known address whose stored hash the password matches; it hands
  -- out a session if the user has no second factor, and otherwise a 2FA token and writes nothing.
  pub login-Checked :
      (now : ℕ) (d : Draw) (email password : String) (s : Store) (r : LoginResult)
      → (login c now d email password s).0 ≡ ok r
      → (k : Checked email password s) × ((k.user.totp_enabled ≡ false)
            × (r ≡ session (session_of c now d k.user.id k.user.email k.user.role))
          ⊎ (k.user.totp_enabled ≡ true)
            × (r ≡ requires_2fa (c.jwt_sign now login_life (login_claims k.user)))
            × ((login c now d email password s).1 ≡ s))
  unfolding login
  login-Checked now d email password s r e = elim (Option-cases (find_email email s.users)) [
    | inl stranger ↦ absurd (ground arith)
    | inr (user, known) ↦ elim (Option-cases user.password_hash) [
      | inl unset ↦ absurd (ground arith)
      | inr (hash, stored) ↦ (
        record { user = user; hash = hash; known = known; stored = stored; right = ground arith },
        elim (Bool-cases user.totp_enabled) [
          | inl on ↦ inr (ground arith)
          | inr off ↦ inl (ground arith)
        ],
      )
    ]
  ]

  -- The token of a login that still needs the second factor opens no guarded route, and the access
  -- token of a session opens them as the user that it was issued for. Both tokens are presented
  -- while they verify as what was signed.
  pub login_tokens_guard :
      (now : ℕ) (waiting access : String) (user : User) (s : Store)
      → c.jwt_verify now waiting ≡ some (login_claims user)
      → c.jwt_verify now access ≡ some (access_claims user.id user.email user.role)
      → find_user user.id s.users ≡ some user
      → ((jwt_can_activate c now false (some waiting) s).0
          ≡ err (unauthorized_exception unauthorized))
        × ((jwt_can_activate c now false (some access) s).0
            ≡ ok (some (record { id = user.id; email = user.email; role = user.role })))
  unfolding jwt_can_activate
  login_tokens_guard now waiting access user s w a known = ground arith

  -- The second factor is checked before a session is issued: a session comes only from a token
  -- whose step is 2fa, for a user with a secret that the code fits.
  pub verify_2fa-checked :
      (now : ℕ) (d : Draw) (login_token code : String) (s : Store) (issued : Session)
      → (verify_2fa c now d login_token code s).0 ≡ ok issued
      → (payload : Claims) × (user : User) × (secret : String) × (c.jwt_verify now login_token
          ≡ some payload)
        × (is_text payload.step "2fa" ≡ true)
        × (find_user payload.sub s.users ≡ some user)
        × (user.totp_secret ≡ some secret)
        × (c.totp_verify now secret code ≡ true)
  unfolding verify_2fa
  verify_2fa-checked now d login_token code s issued e =
      elim (Option-cases (c.jwt_verify now login_token)) [
        | inl forged ↦ absurd (ground arith)
        | inr (payload, verified) ↦ elim (Option-cases (find_user payload.sub s.users)) [
          | inl stranger ↦ absurd (ground arith)
          | inr (user, known) ↦ elim (Option-cases user.totp_secret) [
            | inl unset ↦ absurd (ground arith)
            | inr (secret, stored) ↦
                (payload, user, secret, verified, ground arith, known, stored, ground arith)
          ]
        ]
      ]

  -- A first Google sign-in with an address that already has an account fails as a server error and
  -- writes nothing: the account is not linked, and the new row would repeat the address.
  pub google_login_clash :
      (now : ℕ) (d : Draw) (id_token : String) (payload : GooglePayload) (s : Store) (user : User)
      → c.verify_id_token id_token ≡ some payload
      → find_google payload.sub s.users ≡ none
      → find_email payload.email s.users ≡ some user
      → google_login c now d id_token s ≡ (err fault, s)
  unfolding google_login
  google_login_clash now d id_token payload s user verified new known =
      ground (arith, clashes_email payload.email (google_row d payload) s.users user known refl)
