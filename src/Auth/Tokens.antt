-- ===== src/Auth/Tokens.antt =====
-- auth.service.ts: `issueTokens`, `logout` and `refresh`.
use callnow.Base.{
  ℕ, ◌+◌, ◌*◌, Bool, false, ◌||◌, List, Option, String, ◌==◌, none, some, ltb, is_none, is_some,
  if◌then◌else◌, find_first, update_where, exists_where, insert_row, Action, unauthorized_exception,
  unauthorized, fault, pure, throw, gets, require, modify, throw_if, ◌>>=◌, ◌>>◌,
}
use callnow.Auth.{User, RefreshToken, Store, Claims, Crypto, Draw, Session}

-- 15 minutes and 30 days, in milliseconds
abbrev pub access_life : ℕ
access_life = 15 * 60 * 1000

abbrev pub refresh_life : ℕ
refresh_life = 30 * 24 * 60 * 60 * 1000

abbrev pub access_claims : String → String → String → Claims
access_claims user_id email role = record {
  sub = user_id;
  email = email;
  role = role;
  step = none;
  kind = some "access";
}

abbrev pub by_hash : String → RefreshToken → Bool
by_hash hash t = t.token_hash == hash

abbrev pub revoke : ℕ → RefreshToken → RefreshToken
revoke now t = record t { revoked_at = some now }

-- The queries on the table of refresh tokens.
unfoldable pub find_token : String → List RefreshToken → Option RefreshToken
find_token hash = find_first (by_hash hash)

unfoldable pub has_token : String → List RefreshToken → Bool
has_token hash = exists_where (by_hash hash)

unfoldable pub revoke_id : ℕ → String → List RefreshToken → List RefreshToken
revoke_id now id = update_where (λ t. t.id == id) (revoke now)

unfoldable pub revoke_family : ℕ → String → List RefreshToken → List RefreshToken
revoke_family now family = update_where (λ t. t.family == family) (revoke now)

unfoldable pub revoke_hash : ℕ → String → List RefreshToken → List RefreshToken
revoke_hash now hash =
    update_where (λ t. if by_hash hash t then is_none t.revoked_at else false) (revoke now)

unfoldable pub revoke_user : ℕ → String → List RefreshToken → List RefreshToken
revoke_user now user_id =
    update_where (λ t. if t.user_id == user_id then is_none t.revoked_at else false) (revoke now)

unfoldable pub find_user : String → List User → Option User
find_user id = find_first (λ u. u.id == id)

module _ (c : Crypto) (now : ℕ) where
  abbrev pub new_refresh_token : Draw → String → RefreshToken
  new_refresh_token d user_id = record {
    id = d.row_id;
    user_id = user_id;
    token_hash = c.sha256 d.secret;
    family = d.family;
    expires_at = now + refresh_life;
    revoked_at = none;
  }

  abbrev pub session_of : Draw → String → String → String → Session
  session_of d user_id email role = record {
    user_id = user_id;
    email = email;
    role = role;
    access_token = c.jwt_sign now access_life (access_claims user_id email role);
    refresh_token = d.secret;
    expires_in = 900;
  }

  -- The column `token_hash` is unique, so a second row with the same hash is rejected.
  unfoldable pub issue_tokens : Draw → String → String → String → Action Store Session
  issue_tokens d user_id email role = do
    taken ← gets (λ s. has_token (c.sha256 d.secret) s.refresh_tokens)
    throw_if taken fault
    modify (λ s. record s {
      refresh_tokens = insert_row (new_refresh_token d user_id) s.refresh_tokens;
    })
    pure (session_of d user_id email role)

  unfoldable pub logout : String → Action Store (Unit {0})
  logout refresh_token =
      modify (λ s. record s {
        refresh_tokens = revoke_hash now (c.sha256 refresh_token) s.refresh_tokens;
      })

  -- `stored.revokedAt || stored.expiresAt < new Date()`
  abbrev pub is_dead : RefreshToken → Bool
  is_dead t = is_some t.revoked_at || ltb t.expires_at now

  -- `include: { user: … }`: the foreign key says that the user is there.
  unfoldable pub refresh : Draw → String → Action Store Session
  unfolding issue_tokens
  refresh d refresh_token = do
    stored ←
        require (λ s. find_token (c.sha256 refresh_token) s.refresh_tokens)
          (unauthorized_exception unauthorized)
    user ← require (λ s. find_user stored.user_id s.users) fault
    if is_dead stored
        then (do
          modify
              (λ s. record s { refresh_tokens = revoke_family now stored.family s.refresh_tokens })
          throw (unauthorized_exception unauthorized))
        else (do
          modify (λ s. record s { refresh_tokens = revoke_id now stored.id s.refresh_tokens })
          issue_tokens d user.id user.email user.role)
