-- ===== src/Auth/Examples.antt =====
-- Runs of the authentication service on a small store.
use callnow.Auth.Samples.{toy, draw, tables, ann, bob, mail, old_token, otp, session_for}
use callnow.Base.{
  ℕ, List, String, some, ◌∷◌, ◌≢◌, [], false, ok, true, ◌≡◌, err, bad_request, refl,
  unauthorized_exception, rate_limited, unauthorized, ◌⊎◌, arith,
}
use callnow.Auth.{Draw}
use callnow.Auth.Accounts.{
  login_claims, login, find_email, find_unused, mark_used, LoginResult, requires_2fa, login_life,
}
use callnow.Auth.Tokens.{
  refresh, find_token, session_of, find_user, has_token, issue_tokens, revoke_id, revoke_user,
}
use callnow.Auth.Rotation.{refresh_once}
use callnow.Auth.Revocation.{reset_password-refresh}
use callnow.Auth.OtpLaws.{otp_guess_limit, guesses}
use callnow.Auth.AccountLaws.{login-Checked, login_tokens_guard, Checked}
use callnow.Auth.Enrolment.{
  Reach-IsClosed, World, IsClosed, at, hand_out, next, here, enables_2fa, logs_in,
}
use callnow.Auth.Password.{reset_password, set_password}
use callnow.Auth.Otp.{find_current, verify_phone_otp}
use callnow.Auth.Guards.{jwt_can_activate}
use callnow.Auth.TwoFactor.{enable_2fa}
use callnow.Auth.EnabledUsers.{any_enabled}

refresh_once_example :
    (refresh toy 20 (draw "new2") "old" (refresh toy 10 (draw "new1") "old" tables).1).0
    ≢ ok (session_for "new2")
unfolding refresh find_token find_user has_token revoke_id issue_tokens
refresh_once_example =
    refresh_once toy 10 20 (draw "new1") (draw "new2") "old" tables (session_for "new1")
      (session_for "new2") refl

reset_password-refresh_example :
    (refresh toy 20
      (draw "new2")
      "old"
      (reset_password toy 10 (draw "new1") "reset" "secret" tables).1).0
    ≢ ok (session_for "new2")
unfolding reset_password find_unused find_email find_token mark_used set_password revoke_user
reset_password-refresh_example =
    reset_password-refresh toy 10 20 (draw "new1") (draw "new2") "reset" "secret" "old" tables
      (mail "reset") ann old_token (session_for "new2") refl refl refl refl refl

abbrev two_guesses : List (ℕ × Draw × String)
two_guesses = (10, draw "new1", "0000") ∷ (20, draw "new2", "2222") ∷ []

otp_guess_limit_example :
    verify_phone_otp toy 30
      (draw "new3")
      "+15550001"
      "1111"
      (guesses toy "+15550001" two_guesses tables)
    ≡ (err (bad_request rate_limited), guesses toy "+15550001" two_guesses tables)
unfolding find_current
otp_guess_limit_example =
    otp_guess_limit toy 30 (draw "new3") "+15550001" "1111" two_guesses tables otp refl
      (omega arith, refl, (omega arith, refl, tt)) (omega arith) (omega arith)

login-Checked_example :
    (k : Checked toy "ann@example.org" "pw" tables) × ((k.user.totp_enabled ≡ false)
        × (LoginResult.session (session_for "new1")
            ≡ LoginResult.session
                (session_of toy 10 (draw "new1") k.user.id k.user.email k.user.role))
      ⊎ (k.user.totp_enabled ≡ true)
        × (LoginResult.session (session_for "new1")
            ≡ requires_2fa (toy.jwt_sign 10 login_life (login_claims k.user)))
        × ((login toy 10 (draw "new1") "ann@example.org" "pw" tables).1 ≡ tables))
unfolding login find_email issue_tokens has_token
login-Checked_example =
    login-Checked toy 10 (draw "new1") "ann@example.org" "pw" tables
      (LoginResult.session (session_for "new1")) refl

login_tokens_guard_example :
    ((jwt_can_activate toy 10 false (some "waiting") tables).0
      ≡ err (unauthorized_exception unauthorized))
    × ((jwt_can_activate toy 10 false (some "access") tables).0
        ≡ ok (some (record { id = "u2"; email = "bob@example.org"; role = "user" })))
unfolding find_user
login_tokens_guard_example = login_tokens_guard toy 10 "waiting" "access" bob tables refl refl refl

abbrev start : World
start = record { store = record tables { users = ann ∷ [] }; handed = [] }

-- Ann asks for a second factor and logs in.
abbrev enrolled : World
enrolled = at start (enable_2fa (draw "seed") "u1" start.store).1

Reach-IsClosed_example :
    IsClosed (hand_out (login toy 10 (draw "new1") "ann@example.org" "pw" enrolled.store) enrolled)
unfolding any_enabled
Reach-IsClosed_example =
    Reach-IsClosed toy
      (next (next here (enables_2fa (draw "seed") "u1"))
        (logs_in 10 (draw "new1") "ann@example.org" "pw"))
      (refl, refl)
