-- ===== src/Auth/Password.antt =====
-- auth.service.ts: `forgotPassword` and `resetPassword`.
use callnow.Base.{
  ℕ, ◌*◌, String, ◌==◌, Option, none, some, List, ltb, insert_row, Action, bad_request,
  validation_error, not_found_exception, not_found, fault, pure, require, modify, throw_if,
  update_required, ◌>>=◌, ◌>>◌,
}
use callnow.Auth.{User, Store, Crypto, Draw}
use callnow.Auth.Tokens.{revoke_user}
use callnow.Auth.Accounts.{find_email, find_unused, mark_used, new_mail_token}

-- 1 hour, in milliseconds
abbrev pub reset_life : ℕ
reset_life = 60 * 60 * 1000

unfoldable pub set_password : String → String → List User → Option (List User)
set_password id hash =
    update_required (λ u. u.id == id) (λ u. record u { password_hash = some hash })

module _ (c : Crypto) (now : ℕ) where
  -- The answer is the same whether or not the address is known.
  unfoldable pub forgot_password : Draw → String → Action Store (Unit {0})
  forgot_password d email s = elim (find_email email s.users) [
    | none ↦ pure tt s
    | some user ↦
        modify
          (λ s. record s {
            reset_tokens = insert_row (new_mail_token c now d email reset_life) s.reset_tokens;
          })
          s
  ]

  -- The three updates are one transaction.
  unfoldable pub reset_password : Draw → String → String → Action Store (Unit {0})
  reset_password d token new_password = do
    row ← require (λ s. find_unused (c.sha256 token) s.reset_tokens) (bad_request validation_error)
    throw_if (ltb row.expires_at now) (bad_request validation_error)
    user ← require (λ s. find_email row.email s.users) (not_found_exception not_found)
    users ← require (λ s. set_password user.id (c.bcrypt_hash d.salt new_password) s.users) fault
    tokens ← require (λ s. mark_used now row.id s.reset_tokens) fault
    modify (λ s. record s {
      users = users;
      reset_tokens = tokens;
      refresh_tokens = revoke_user now user.id s.refresh_tokens;
    })
