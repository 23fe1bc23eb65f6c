-- ===== src/Auth/Samples.antt =====
-- A small store of the authentication service, with a transparent stand-in for the cryptography: a
-- hash is the text itself, and there is one token of each kind.
use callnow.Auth.{
  User, MailToken, OtpCode, RefreshToken, Store, Crypto, Draw, Session, GooglePayload, OtpAction,
}
use callnow.Base.{String, none, some, ◌==◌, ◌∷◌, [], false, if◌then◌else◌, true, is_text}
use callnow.Auth.Tokens.{session_of, access_claims}
use callnow.Auth.Accounts.{login_claims}

abbrev pub ann : User
ann = record {
  id = "u1";
  email = "ann@example.org";
  password_hash = some "pw";
  email_verified = false;
  totp_secret = none;
  totp_enabled = false;
  google_id = none;
  phone = some "+15550001";
  role = "user";
}

abbrev pub bob : User
bob = record ann {
  id = "u2";
  email = "bob@example.org";
  totp_secret = some "seed";
  totp_enabled = true;
  phone = none;
}

abbrev pub google_ann : GooglePayload
google_ann = record { sub = "g1"; email = "ann@example.org" }

abbrev pub toy : Crypto
toy = record {
  sha256 = λ s. s;
  bcrypt_hash = λ salt s. s;
  bcrypt_compare = λ s hash. s == hash;
  jwt_sign = λ now life claims. if is_text claims.step "2fa" then "waiting" else "access";
  jwt_verify = λ now token.
      if token == "waiting"
      then some (login_claims bob)
      else if token == "access"
      then some (access_claims "u2" "bob@example.org" "user")
      else none;
  totp_verify = λ now secret code. code == "123456";
  verify_id_token = λ token. if token == "google" then some google_ann else none;
}

abbrev pub draw : String → Draw
draw x = record { row_id = x; user_id = x; secret = x; family = x; salt = x }

abbrev pub old_token : RefreshToken
old_token = record {
  id = "r1";
  user_id = "u1";
  token_hash = "old";
  family = "f1";
  expires_at = 5000;
  revoked_at = none;
}

abbrev pub mail : String → MailToken
mail hash = record {
  id = "m1";
  email = "ann@example.org";
  token_hash = hash;
  expires_at = 1000;
  used_at = none;
  created_at = 0;
}

abbrev pub otp : OtpCode
otp = record {
  id = "o1";
  phone = "+15550001";
  code_hash = "1111";
  action = OtpAction.login;
  attempts = 1;
  max_attempts = 3;
  expires_at = 1000;
  used_at = none;
  created_at = 0;
}

abbrev pub tables : Store
tables = record {
  users = ann ∷ bob ∷ [];
  email_tokens = mail "verify" ∷ [];
  reset_tokens = mail "reset" ∷ [];
  otp_codes = otp ∷ [];
  refresh_tokens = old_token ∷ [];
  sms_log = [];
}

abbrev pub session_for : String → Session
session_for secret = session_of toy 10 (draw secret) "u1" "ann@example.org" "user"
