-- ===== src/Auth/Rotation.antt =====
-- Refresh tokens rotate: auth.service.ts, `refresh` over `issueTokens` and `logout`.
use callnow.Base.{
  ℕ, ◌≡◌, refl, true, false, String, ◌==◌, eq_refl, eq_iff, some, List, arith, is_some,
  if◌then◌else◌, insert_row, find_first-append, find_first-holds, find_first-update_where, ok, err,
  unauthorized_exception, unauthorized, Option-cases, inl, inr, ◌∷◌, ◌≢◌, [],
}
use callnow.Auth.{User, RefreshToken, Store, Crypto, Draw, Session}
use callnow.Auth.Tokens.{
  find_user, has_token, session_of, by_hash, revoke, find_token, revoke_id, revoke_family, is_dead,
  new_refresh_token, refresh,
}

module _ (c : Crypto) where
  -- what an exchange that succeeds has found
  pub record Exchange (now : ℕ) (d : Draw) (token : String) (s : Store) : Type 0 where
    pub stored : RefreshToken
    pub user : User
    pub found : find_token (c.sha256 token) s.refresh_tokens ≡ some stored
    pub known : find_user stored.user_id s.users ≡ some user
    pub alive : is_dead c now stored ≡ false
    pub new : has_token (c.sha256 d.secret) (revoke_id now stored.id s.refresh_tokens) ≡ false

  -- the store that it leaves
  unfoldable pub exchanged : (now : ℕ) (d : Draw) (stored : RefreshToken) → Store → Store
  exchanged now d stored s = record s {
    refresh_tokens =
        insert_row (new_refresh_token c now d stored.user_id)
          (revoke_id now stored.id s.refresh_tokens);
  }

  pub refresh-Exchange :
      (now : ℕ) (d : Draw) (token : String) (s : Store) (session : Session)
      → (refresh c now d token s).0 ≡ ok session
      → Exchange now d token s
  unfolding refresh
  refresh-Exchange now d token s session e =
      elim (Option-cases (find_token (c.sha256 token) s.refresh_tokens)) [
        | inl missing ↦ absurd (ground arith)
        | inr (stored, found) ↦ elim (Option-cases (find_user stored.user_id s.users)) [
          | inl stranger ↦ absurd (ground arith)
          | inr (user, known) ↦ record {
            stored = stored;
            user = user;
            found = found;
            known = known;
            alive = ground arith;
            new = ground arith;
          }
        ]
      ]

  find_user-id :
      (id : String) (users : List User) (user : User)
      → find_user id users ≡ some user
      → user.id ≡ id
  unfolding find_user
  find_user-id id users user h = (eq_iff _ _).0 (find_first-holds (λ u. u.id == id) users user h)

  pub refresh-alive :
      (now : ℕ) (d : Draw) (token : String) (s : Store) (x : Exchange now d token s)
      → refresh c now d token s
        ≡ (ok (session_of c now d x.user.id x.user.email x.user.role), exchanged now d x.stored s)
  unfolding refresh exchanged
  refresh-alive now d token s x = ground (
    arith,
    x.found,
    x.known,
    x.alive,
    x.new,
    find_user-id x.stored.user_id s.users x.user x.known,
  )

  pub refresh-dead :
      (now : ℕ) (d : Draw) (token : String) (s : Store) (stored : RefreshToken) (user : User)
      → find_token (c.sha256 token) s.refresh_tokens ≡ some stored
      → find_user stored.user_id s.users ≡ some user
      → is_dead c now stored ≡ true
      → refresh c now d token s ≡ (
        err (unauthorized_exception unauthorized),
        record s { refresh_tokens = revoke_family now stored.family s.refresh_tokens },
      )
  unfolding refresh
  refresh-dead now d token s stored user found known dead = ground arith

-- The table under an update of the column `revoked_at`.
pub find_token-insert_row :
    (h : String) (rows : List RefreshToken) (t u : RefreshToken)
    → find_token h rows ≡ some t
    → find_token h (insert_row u rows) ≡ some t
unfolding find_token
find_token-insert_row h rows t u e = find_first-append (by_hash h) rows u t e

pub find_token-revoke_id :
    (now : ℕ) (id h : String) (rows : List RefreshToken) (t : RefreshToken)
    → find_token h rows ≡ some t
    → find_token h (revoke_id now id rows) ≡ some (if t.id == id then revoke now t else t)
unfolding find_token revoke_id
find_token-revoke_id now id h rows t e =
    find_first-update_where (by_hash h) (λ u. u.id == id) (revoke now) rows t (λ u. refl) e

pub find_token-revoke_family :
    (now : ℕ) (family h : String) (rows : List RefreshToken) (t : RefreshToken)
    → find_token h rows ≡ some t
    → find_token h (revoke_family now family rows)
      ≡ some (if t.family == family then revoke now t else t)
unfolding find_token revoke_family
find_token-revoke_family now family h rows t e =
    find_first-update_where (by_hash h) (λ u. u.family == family) (revoke now) rows t (λ u. refl) e

pub find_token-new :
    (h : String) (rows : List RefreshToken) (u : RefreshToken)
    → has_token h rows ≡ false
    → u.token_hash ≡ h
    → find_token h (insert_row u rows) ≡ some u
unfolding find_token has_token
find_token-new h [] u new e = ground (arith, eq_iff u.token_hash h)
find_token-new h (t ∷ rows) u new e = ground (arith, find_token-new h rows u)

pub has_token-revoke_id :
    (now : ℕ) (id h : String) (rows : List RefreshToken)
    → has_token h (revoke_id now id rows) ≡ has_token h rows
unfolding has_token revoke_id
has_token-revoke_id now id h [] = refl
has_token-revoke_id now id h (t ∷ rows) = ground (arith, has_token-revoke_id now id h rows)

module _ (c : Crypto) where
  -- A token whose row is revoked is refused, whoever presents it and whenever.
  pub revoked_refused :
      (now : ℕ) (d : Draw) (token : String) (s : Store) (t : RefreshToken) (session : Session)
      → find_token (c.sha256 token) s.refresh_tokens ≡ some t
      → is_some t.revoked_at ≡ true
      → (refresh c now d token s).0 ≢ ok session
  unfolding refresh
  revoked_refused now d token s t session found dead = ground arith

  -- The row of an exchanged token is there, revoked.
  pub find_token-exchanged :
      (now : ℕ) (d : Draw) (token : String) (s : Store) (x : Exchange c now d token s)
      → find_token (c.sha256 token) (exchanged c now d x.stored s).refresh_tokens
        ≡ some (revoke now x.stored)
  unfolding exchanged
  find_token-exchanged now d token s x = find_token-insert_row _ _ _ _ (
      rw (eq_refl x.stored.id) at
        (find_token-revoke_id now x.stored.id _ s.refresh_tokens x.stored x.found))

  -- A refresh token that has been exchanged once is refused at any later exchange.
  pub refresh_once :
      (now later : ℕ) (d d' : Draw) (token : String) (s : Store) (first second : Session)
      → (refresh c now d token s).0 ≡ ok first
      → (refresh c later d' token (refresh c now d token s).1).0 ≢ ok second
  refresh_once now later d d' token s first second e =
      let x = refresh-Exchange c now d token s first e in
      rw (refresh-alive c now d token s x) (
        revoked_refused later d' token (exchanged c now d x.stored s) (revoke now x.stored) second
          (find_token-exchanged now d token s x) refl)
