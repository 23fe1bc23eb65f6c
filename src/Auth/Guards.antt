-- ===== src/Auth/Guards.antt =====
-- backend/src/auth/strategies/jwt.strategy.ts and backend/src/auth/guards: who may make a request.
use callnow.Base.{
  ℕ, Bool, true, false, not, ◌&&◌, ◌||◌, String, ◌==◌, Option, none, some, List, [], ◌∷◌, is_text,
  truthy, if◌then◌else◌, exists_where, Action, unauthorized_exception, unauthorized, pure, require,
  throw_if, or_throw, ◌>>=◌, ◌>>◌,
}
use callnow.Auth.{Store, Claims, Crypto}
use callnow.Auth.Tokens.{find_user}

-- what `request.user` holds
pub record JwtUser : Type 0 where
  pub id : String
  pub email : String
  pub role : String

-- `payload.type && payload.type !== 'access'`
abbrev pub is_other_kind : Option String → Bool
is_other_kind none = false
is_other_kind (some k) = truthy k && not (k == "access")

-- `JwtStrategy.validate`
unfoldable pub validate : Claims → Action Store JwtUser
validate payload = do
  throw_if (is_text payload.step "2fa" || is_other_kind payload.kind)
      (unauthorized_exception unauthorized)
  user ← require (λ s. find_user payload.sub s.users) (unauthorized_exception unauthorized)
  pure (record { id = user.id; email = user.email; role = user.role })

-- `JwtAuthGuard.canActivate`: passport reads the bearer token and calls `validate`.
unfoldable pub jwt_can_activate : Crypto → ℕ → Bool → Option String → Action Store (Option JwtUser)
unfolding validate
jwt_can_activate c now is_public bearer = if is_public then pure none else (do
  token ← or_throw bearer (unauthorized_exception unauthorized)
  payload ← or_throw (c.jwt_verify now token) (unauthorized_exception unauthorized)
  user ← validate payload
  pure (some user))

-- `RolesGuard.canActivate`; `none` where no role is declared
unfoldable pub roles_can_activate : Option (List String) → Option JwtUser → Bool
roles_can_activate none user = true
roles_can_activate (some []) user = true
roles_can_activate (some (r ∷ rs)) none = false
roles_can_activate (some (r ∷ rs)) (some user) = exists_where (λ x. x == user.role) (r ∷ rs)
