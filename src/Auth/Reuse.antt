-- ===== src/Auth/Reuse.antt =====
-- A refresh token that is presented again: auth.service.ts, the branch of `refresh` that revokes a
-- family, over the rows that `issueTokens` makes.
use callnow.Auth.Rotation.{
  refresh-dead, exchanged, Exchange, refresh-alive, find_token-revoke_family, find_token-exchanged,
  find_token-new, has_token-revoke_id, refresh-Exchange,
}
use callnow.Auth.{Crypto, ℕ, Draw, String, Store, RefreshToken, Session, User}
use callnow.Base.{
  refl, ℕ, String, ◌≡◌, ◌≢◌, ok, some, ap, ◌≤◌, ◌+◌, true, err, false, unauthorized_exception, ◌∙◌,
  arith, is_ok, unauthorized, eq_iff, if◌then◌else◌, ◌==◌,
}
use callnow.Auth.Tokens.{
  refresh, find_token, revoke_family, find_user, new_refresh_token, is_dead, revoke, refresh_life,
  has_token, revoke_id,
}

module _ (c : Crypto) where
  -- Presenting a token that is revoked or expired is refused with UNAUTHORIZED, and it revokes
  -- every row of that token's family, and no row of another family: each other token's row is
  -- found afterwards as before, revoked if its family is the same.
  pub refresh_reuse :
      (now : ℕ) (d : Draw) (token other : String) (s : Store) (stored t : RefreshToken)
      (user : User)
      → find_token (c.sha256 token) s.refresh_tokens ≡ some stored
      → find_user stored.user_id s.users ≡ some user
      → is_dead c now stored ≡ true
      → find_token (c.sha256 other) s.refresh_tokens ≡ some t
      → ((refresh c now d token s).0 ≡ err (unauthorized_exception unauthorized))
        × (find_token (c.sha256 other) (refresh c now d token s).1.refresh_tokens
            ≡ some (if t.family == stored.family then revoke now t else t))
  refresh_reuse now d token other s stored t user found known dead e =
      rw (refresh-dead c now d token s stored user found known dead)
        (refl, find_token-revoke_family now stored.family (c.sha256 other) s.refresh_tokens t e)

  -- the store after an exchange of a token and a second presentation of it
  unfoldable pub replayed : (now replay : ℕ) (d d₁ : Draw) → String → Store → Store
  replayed now replay d d₁ token s = (refresh c replay d₁ token (refresh c now d token s).1).1

  replayed_lem :
      (now replay : ℕ) (d d₁ : Draw) (token : String) (s : Store) (x : Exchange c now d token s)
      → replayed now replay d d₁ token s ≡ record (exchanged c now d x.stored s) {
        refresh_tokens =
            revoke_family replay x.stored.family (exchanged c now d x.stored s).refresh_tokens;
      }
  unfolding replayed exchanged
  replayed_lem now replay d d₁ token s x =
      rw (replayed, refresh-alive c now d token s x)
        (ap (λ r. r.1)
          (refresh-dead c replay d₁ token (exchanged c now d x.stored s) (revoke now x.stored)
            x.user (find_token-exchanged c now d token s x) x.known refl))

  -- the row that the exchange added, after the replay
  find_token-successor :
      (now replay : ℕ) (d : Draw) (token : String) (s : Store) (x : Exchange c now d token s)
      → d.family ≢ x.stored.family
      → find_token
          (c.sha256 d.secret)
          (revoke_family replay x.stored.family (exchanged c now d x.stored s).refresh_tokens)
        ≡ some (new_refresh_token c now d x.stored.user_id)
  unfolding exchanged
  find_token-successor now replay d token s x apart =
      find_token-revoke_family replay x.stored.family (c.sha256 d.secret) _ _ (
        find_token-new (c.sha256 d.secret) (revoke_id now x.stored.id s.refresh_tokens)
          (new_refresh_token c now d x.stored.user_id) x.new refl)
      ∙ ground (arith, eq_iff d.family x.stored.family)

  successor-Exchange :
      (now replay later : ℕ) (d d₁ d₂ : Draw) (token : String) (s : Store)
      (x : Exchange c now d token s)
      → d.family ≢ x.stored.family
      → later ≤ now + refresh_life
      → has_token (c.sha256 d₂.secret) (replayed now replay d d₁ token s).refresh_tokens ≡ false
      → Exchange c later d₂ d.secret (replayed now replay d d₁ token s)
  unfolding exchanged
  successor-Exchange now replay later d d₁ d₂ token s x apart alive new = record {
    stored = new_refresh_token c now d x.stored.user_id;
    user = x.user;
    found =
        rw (replayed_lem now replay d d₁ token s x)
          (find_token-successor now replay d token s x apart);
    known = rw (replayed_lem now replay d d₁ token s x) x.known;
    alive = ground arith;
    new = rw has_token-revoke_id new;
  }

  -- The token that an exchange has handed out still works after the old token is presented again:
  -- the exchange put the new row in a new family, which the revocation does not reach. The new
  -- family differs from the old one, and no clash of hashes occurs.
  pub successor_survives_reuse :
      (now replay later : ℕ) (d d₁ d₂ : Draw) (token : String) (s : Store) (first : Session)
      (stored : RefreshToken)
      → (refresh c now d token s).0 ≡ ok first
      → find_token (c.sha256 token) s.refresh_tokens ≡ some stored
      → d.family ≢ stored.family
      → later ≤ now + refresh_life
      → has_token (c.sha256 d₂.secret) (replayed now replay d d₁ token s).refresh_tokens ≡ false
      → is_ok (refresh c later d₂ first.refresh_token (replayed now replay d d₁ token s)).0 ≡ true
  successor_survives_reuse now replay later d d₁ d₂ token s first stored e found apart alive new =
      let x = refresh-Exchange c now d token s first e in
      let same : x.stored ≡ stored = cc (x.found) in
      let secret : first.refresh_token ≡ d.secret = cc (refresh-alive c now d token s x) in
      rw secret (
        cc (
          refresh-alive c later d₂ d.secret (replayed now replay d d₁ token s)
            (successor-Exchange now replay later d d₁ d₂ token s x (rw same apart) alive new)))
