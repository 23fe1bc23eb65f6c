-- ===== src/Auth/Revocation.antt =====
-- Sessions that are ended: auth.service.ts, `logout` and `resetPassword`, against `refresh`.
use callnow.Auth.Rotation.{revoked_refused}
use callnow.Auth.Tokens.{find_token, logout, refresh, revoke_hash, revoke_user, by_hash, revoke}
use callnow.Auth.{Crypto, ℕ, Draw, String, List, Store, MailToken, RefreshToken, Session, User}
use callnow.Auth.Password.{reset_password}
use callnow.Base.{
  ℕ, String, List, ◌≡◌, ◌≢◌, none, ok, some, Option-cases, arith, find_first-update_where-none,
  is_some, inl, true, find_first-holds, if◌then◌else◌, inr, is_none, false, eq_iff,
  find_first-update_where, refl, ◌==◌,
}
use callnow.Auth.Accounts.{find_unused, find_email}

find_token-revoke_hash :
    (now : ℕ) (h : String) (rows : List RefreshToken) (t : RefreshToken)
    → find_token h rows ≡ some t
    → (u : RefreshToken) × (find_token h (revoke_hash now h rows) ≡ some u)
      × (is_some u.revoked_at ≡ true)
unfolding find_token revoke_hash
find_token-revoke_hash now h rows t e =
    let hit = find_first-holds (by_hash h) rows t e in
    (
      if is_none t.revoked_at then revoke now t else t,
      rw hit at (
          find_first-update_where (by_hash h)
            (λ u. if by_hash h u then is_none u.revoked_at else false) (revoke now) rows t
            (λ u. refl) e),
      ground arith,
    )

find_token-revoke_hash-none :
    (now : ℕ) (h : String) (rows : List RefreshToken)
    → find_token h rows ≡ none
    → find_token h (revoke_hash now h rows) ≡ none
unfolding find_token revoke_hash
find_token-revoke_hash-none now h rows e =
    find_first-update_where-none (by_hash h)
      (λ u. if by_hash h u then is_none u.revoked_at else false) (revoke now) rows (λ u. refl) e

find_token-revoke_user :
    (now : ℕ) (id h : String) (rows : List RefreshToken) (t : RefreshToken)
    → find_token h rows ≡ some t
    → t.user_id ≡ id
    → (u : RefreshToken) × (find_token h (revoke_user now id rows) ≡ some u)
      × (is_some u.revoked_at ≡ true)
unfolding find_token revoke_user
find_token-revoke_user now id h rows t e own = (
  if is_none t.revoked_at then revoke now t else t,
  rw ((eq_iff _ _).1 own) at (
      find_first-update_where (by_hash h)
        (λ u. if u.user_id == id then is_none u.revoked_at else false) (revoke now) rows t
        (λ u. refl) e),
  ground arith,
)

module _ (c : Crypto) where
  unknown_refused :
      (now : ℕ) (d : Draw) (token : String) (s : Store) (session : Session)
      → find_token (c.sha256 token) s.refresh_tokens ≡ none
      → (refresh c now d token s).0 ≢ ok session
  unfolding refresh
  unknown_refused now d token s session missing = ground arith

  -- After a logout the refresh token is refused, whatever the store held before.
  pub logout-refresh :
      (now later : ℕ) (d : Draw) (token : String) (s : Store) (session : Session)
      → (refresh c later d token (logout c now token s).1).0 ≢ ok session
  unfolding logout
  logout-refresh now later d token s session =
      elim (Option-cases (find_token (c.sha256 token) s.refresh_tokens)) [
        | inl missing ↦
            unknown_refused later d token (logout c now token s).1 session
              (find_token-revoke_hash-none now (c.sha256 token) s.refresh_tokens missing)
        | inr (t, found) ↦
            let (u, there, dead) =
              find_token-revoke_hash now (c.sha256 token) s.refresh_tokens t found in
            revoked_refused c later d token (logout c now token s).1 u session there dead
      ]

  -- what a password reset that succeeds leaves of the refresh tokens
  reset-refresh_tokens :
      (now : ℕ) (d : Draw) (token password : String) (s : Store) (row : MailToken) (user : User)
      → (reset_password c now d token password s).0 ≡ ok tt
      → find_unused (c.sha256 token) s.reset_tokens ≡ some row
      → find_email row.email s.users ≡ some user
      → (reset_password c now d token password s).1.refresh_tokens
        ≡ revoke_user now user.id s.refresh_tokens
  unfolding reset_password
  reset-refresh_tokens now d token password s row user done found known = ground arith

  -- A password reset that succeeds ends every session of the user: each refresh token of the user
  -- that had a row is refused afterwards.
  pub reset_password-refresh :
      (now later : ℕ) (d d' : Draw) (token password held : String) (s : Store) (row : MailToken)
      (user : User) (t : RefreshToken) (session : Session)
      → (reset_password c now d token password s).0 ≡ ok tt
      → find_unused (c.sha256 token) s.reset_tokens ≡ some row
      → find_email row.email s.users ≡ some user
      → find_token (c.sha256 held) s.refresh_tokens ≡ some t
      → t.user_id ≡ user.id
      → (refresh c later d' held (reset_password c now d token password s).1).0 ≢ ok session
  reset_password-refresh now later d d' token password held s row user t session done found known e
        own =
      let (u, there, dead) =
        find_token-revoke_user now user.id (c.sha256 held) s.refresh_tokens t e own in
      revoked_refused c later d' held (reset_password c now d token password s).1 u session
        (rw (reset-refresh_tokens now d token password s row user done found known) there) dead
