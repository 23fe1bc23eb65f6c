-- ===== src/Auth/Enrolment.antt =====
-- Who can turn the second factor on: the operations of auth.service.ts as steps of one system.
use callnow.Auth.{Crypto, Store, String, ℕ, Bool, Draw, Option, User}
use callnow.Base.{
  List, Result, String, ℕ, Bool, ok, ◌≡◌, false, ◌∷◌, err, Option, exists_where, some, true, ◌==◌,
  none, is_text, arith, [], ◌∙◌, ap, Bool-cases, inl, inr, Option-cases, refl,
}
use callnow.Auth.Accounts.{
  LoginResult, requires_2fa, register, verify_email, google_login, find_email, login,
}
use callnow.Auth.Password.{forgot_password, reset_password}
use callnow.Auth.TwoFactor.{enable_2fa, verify_2fa}
use callnow.Auth.Tokens.{logout, refresh}
use callnow.Auth.Otp.{login_phone_otp}
use callnow.Auth.EnabledUsers.{
  any_enabled, register-any_enabled, verify_email-any_enabled, google_login-any_enabled,
  login_phone_otp-any_enabled, logout-users, refresh-users, forgot_password-users,
  reset_password-any_enabled, enable_2fa-any_enabled, login-users,
}

-- the store, and the 2FA tokens that logins have handed out
pub record World : Type 0 where
  pub store : Store
  pub handed : List String

-- `login` hands its 2FA token to the client.
unfoldable pub hand_out : Result LoginResult × Store → World → World
hand_out (ok (requires_2fa token), s) w = record { store = s; handed = token ∷ w.handed }
hand_out (ok (LoginResult.session x), s) w = record { store = s; handed = w.handed }
hand_out (err e, s) w = record { store = s; handed = w.handed }

-- the token verifies as a token of the 2FA step
unfoldable pub is_2fa : Crypto → ℕ → String → Bool
is_2fa c now token = elim (c.jwt_verify now token) [
  | none ↦ false
  | some payload ↦ is_text payload.step "2fa"
]

abbrev pub at : World → Store → World
at w s = record w { store = s }

-- Any request, in any order. Signatures are not forged: what verifies as a 2FA token was handed out.
pub data Step (c : Crypto) (w : World) : World → Type 0 where
  registers :
      (now : ℕ) (d : Draw) (email password : String)
      → Step c w (at w (register c now d email password w.store).1)
  verifies_email : (now : ℕ) (token : String) → Step c w (at w (verify_email c now token w.store).1)
  logs_in :
      (now : ℕ) (d : Draw) (email password : String)
      → Step c w (hand_out (login c now d email password w.store) w)
  signs_in_google :
      (now : ℕ) (d : Draw) (id_token : String)
      → Step c w (at w (google_login c now d id_token w.store).1)
  uses_phone :
      (now : ℕ) (d : Draw) (action phone : String) (code : Option String)
      → Step c w (at w (login_phone_otp c now d action phone code w.store).1)
  logs_out : (now : ℕ) (token : String) → Step c w (at w (logout c now token w.store).1)
  refreshes :
      (now : ℕ) (d : Draw) (token : String) → Step c w (at w (refresh c now d token w.store).1)
  forgets_password :
      (now : ℕ) (d : Draw) (email : String)
      → Step c w (at w (forgot_password c now d email w.store).1)
  resets_password :
      (now : ℕ) (d : Draw) (token password : String)
      → Step c w (at w (reset_password c now d token password w.store).1)
  enables_2fa : (d : Draw) (user_id : String) → Step c w (at w (enable_2fa d user_id w.store).1)
  verifies_2fa :
      (now : ℕ) (d : Draw) (token code : String)
      → (is_2fa c now token ≡ true → exists_where (λ t. t == token) w.handed ≡ true)
      → Step c w (at w (verify_2fa c now d token code w.store).1)

pub data Reach (c : Crypto) (w : World) : World → Type 0 where
  here : Reach c w w
  next : {v u : World} → Reach c w v → Step c v u → Reach c w u

-- no user has a second factor, and no 2FA token is out
abbrev pub IsClosed : World → Type 0
IsClosed w = (any_enabled w.store.users ≡ false) × (w.handed ≡ [])

module _ (c : Crypto) where
  verify_2fa-refused :
      (now : ℕ) (d : Draw) (token code : String) (s : Store)
      → is_2fa c now token ≡ false
      → (verify_2fa c now d token code s).1 ≡ s
  unfolding verify_2fa is_2fa
  verify_2fa-refused now d token code s h = ground arith

  find_email-off :
      (email : String) (users : List User) (u : User)
      → any_enabled users ≡ false
      → find_email email users ≡ some u
      → u.totp_enabled ≡ false
  unfolding find_email any_enabled
  find_email-off email [] u off e = cc
  find_email-off email (v ∷ users) u off e = ground (arith, find_email-off email users u)

  logs_in-handed :
      (now : ℕ) (d : Draw) (email password : String) (w : World)
      → IsClosed w
      → (hand_out (login c now d email password w.store) w).handed ≡ []
  unfolding login hand_out
  logs_in-handed now d email password w h = elim (Option-cases (find_email email w.store.users)) [
    | inl stranger ↦ ground arith
    | inr (user, known) ↦ ground (arith, find_email-off email w.store.users user h.0 known)
  ]

  hand_out-store : (r : Result LoginResult × Store) (w : World) → (hand_out r w).store ≡ r.1
  unfolding hand_out
  hand_out-store (ok (requires_2fa token), s) w = refl
  hand_out-store (ok (LoginResult.session x), s) w = refl
  hand_out-store (err e, s) w = refl

  Step-IsClosed : {w v : World} → Step c w v → IsClosed w → IsClosed v
  Step-IsClosed {w} (registers now d email password) h =
      (register-any_enabled c now d email password w.store ∙ h.0, h.1)
  Step-IsClosed {w} (verifies_email now token) h =
      (verify_email-any_enabled c now token w.store ∙ h.0, h.1)
  Step-IsClosed {w} (logs_in now d email password) h =
      let r = login c now d email password w.store in
      (
        ap (λ s. any_enabled s.users) (hand_out-store r w)
            ∙ ap any_enabled (login-users c now d email password w.store)
            ∙ h.0,
        logs_in-handed now d email password w h,
      )
  Step-IsClosed {w} (signs_in_google now d id_token) h =
      (google_login-any_enabled c now d id_token w.store ∙ h.0, h.1)
  Step-IsClosed {w} (uses_phone now d action phone code) h =
      (login_phone_otp-any_enabled c now d action phone code w.store ∙ h.0, h.1)
  Step-IsClosed {w} (logs_out now token) h =
      (ap any_enabled (logout-users c now token w.store) ∙ h.0, h.1)
  Step-IsClosed {w} (refreshes now d token) h =
      (ap any_enabled (refresh-users c now d token w.store) ∙ h.0, h.1)
  Step-IsClosed {w} (forgets_password now d email) h =
      (ap any_enabled (forgot_password-users c now d email w.store) ∙ h.0, h.1)
  Step-IsClosed {w} (resets_password now d token password) h =
      (reset_password-any_enabled c now d token password w.store ∙ h.0, h.1)
  Step-IsClosed {w} (enables_2fa d user_id) h =
      (enable_2fa-any_enabled d user_id w.store ∙ h.0, h.1)
  Step-IsClosed {w} (verifies_2fa now d token code genuine) h =
      elim (Bool-cases (is_2fa c now token)) [
        | inl real ↦ absurd (ground (arith, genuine real))
        | inr other ↦ (
          ap (λ s. any_enabled s.users) (verify_2fa-refused now d token code w.store other) ∙ h.0,
          h.1,
        )
      ]

  -- From a store in which no user has a second factor, no sequence of requests, in any order and
  -- by anyone who forges no signature, gives one to a user: verifying the first code wants a 2FA
  -- token, and a login hands one out only to a user who has the second factor on.
  pub Reach-IsClosed : {w v : World} → Reach c w v → IsClosed w → IsClosed v
  Reach-IsClosed here h = h
  Reach-IsClosed (next r step) h = Step-IsClosed step (Reach-IsClosed r h)
