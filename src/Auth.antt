-- ===== src/Auth.antt =====
-- The data of backend/src/auth/auth.service.ts: the tables that it reads and writes, as
-- backend/prisma/schema.prisma declares them (columns that no code of the service touches are left
-- out), the third-party functions that it calls, and its results. Times are milliseconds.
pub mod Tokens
pub mod Accounts
pub mod Otp
pub mod Password
pub mod TwoFactor
pub mod Guards
pub mod Rotation
pub mod Reuse
pub mod Revocation
pub mod OtpLaws
pub mod AccountLaws
pub mod MailLaws
pub mod EnabledUsers
pub mod Enrolment
pub mod Samples
mod Examples
use callnow.Base.{ℕ, Bool, String, Option, List}

pub record User : Type 0 where
  pub id : String
  pub email : String
  pub password_hash : Option String
  pub email_verified : Bool
  pub totp_secret : Option String
  pub totp_enabled : Bool
  pub google_id : Option String
  pub phone : Option String
  pub role : String

-- a row of `email_verification_tokens` or of `password_reset_tokens`
pub record MailToken : Type 0 where
  pub id : String
  pub email : String
  pub token_hash : String
  pub expires_at : ℕ
  pub used_at : Option ℕ
  pub created_at : ℕ

pub data OtpAction : Type 0 where
  login verify_phone : OtpAction

pub record OtpCode : Type 0 where
  pub id : String
  pub phone : String
  pub code_hash : String
  pub action : OtpAction
  pub attempts : ℕ
  pub max_attempts : ℕ
  pub expires_at : ℕ
  pub used_at : Option ℕ
  pub created_at : ℕ

pub record RefreshToken : Type 0 where
  pub id : String
  pub user_id : String
  pub token_hash : String
  pub family : String
  pub expires_at : ℕ
  pub revoked_at : Option ℕ

pub record Sms : Type 0 where
  pub to : String
  pub text : String

-- the tables, and the messages that the telephony provider has been asked to send
pub record Store : Type 0 where
  pub users : List User
  pub email_tokens : List MailToken
  pub reset_tokens : List MailToken
  pub otp_codes : List OtpCode
  pub refresh_tokens : List RefreshToken
  pub sms_log : List Sms

-- what a JSON web token says
pub record Claims : Type 0 where
  pub sub : String
  pub email : String
  pub role : String
  pub step : Option String
  pub kind : Option String

pub record GooglePayload : Type 0 where
  pub sub : String
  pub email : String

-- The functions of crypto, bcrypt, @nestjs/jwt, speakeasy and google-auth-library. A time is the
-- moment of the call; `jwt_sign` is given the token's life, and `bcrypt_hash` its random salt.
pub record Crypto : Type 0 where
  pub sha256 : String → String
  pub bcrypt_hash : String → String → String
  pub bcrypt_compare : String → String → Bool
  pub jwt_sign : ℕ → ℕ → Claims → String
  pub jwt_verify : ℕ → String → Option Claims
  pub totp_verify : ℕ → String → String → Bool
  pub verify_id_token : String → Option GooglePayload

-- The random values that one request draws: the ids of new rows, the secret that it hands out, the
-- family of a refresh token, and the salt of a password hash.
pub record Draw : Type 0 where
  pub row_id : String
  pub user_id : String
  pub secret : String
  pub family : String
  pub salt : String

-- the object that `issueTokens` returns
pub record Session : Type 0 where
  pub user_id : String
  pub email : String
  pub role : String
  pub access_token : String
  pub refresh_token : String
  pub expires_in : ℕ
