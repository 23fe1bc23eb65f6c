-- ===== src/Jobs/Retention.antt =====
-- backend/src/jobs/token-cleanup.job.ts and data-retention.job.ts. A row is older than a length of
-- time when its time and the length together are before now.
use callnow.Base.{ℕ, List, delete_where, ◌*◌, ltb, ◌+◌}
use callnow.Auth
use callnow.Auth.{OtpCode}
use callnow.Messaging.{Message}
use callnow.Calling.{Voicemail}

-- `expiresAt: { lt: new Date() }`
unfoldable pub cleanup_tokens : ℕ → callnow.Auth.Store → callnow.Auth.Store
cleanup_tokens now s = record s {
  refresh_tokens = delete_where (λ t. ltb t.expires_at now) s.refresh_tokens;
  email_tokens = delete_where (λ t. ltb t.expires_at now) s.email_tokens;
}

-- 90 days, 24 hours and 5 minutes, in milliseconds
abbrev pub voicemail_life : ℕ
voicemail_life = 90 * 24 * 60 * 60 * 1000

abbrev pub reset_token_life : ℕ
reset_token_life = 24 * 60 * 60 * 1000

abbrev pub otp_code_life : ℕ
otp_code_life = 5 * 60 * 1000

-- the tables that the job purges
pub record Tables : Type 0 where
  pub messages : List Message
  pub voicemails : List Voicemail
  pub auth : callnow.Auth.Store

unfoldable pub purge_codes : ℕ → List OtpCode → List OtpCode
purge_codes now = delete_where (λ o. ltb (o.created_at + otp_code_life) now)

-- `cutoff` is the same day two years before, by the server's calendar.
unfoldable pub retain : ℕ → ℕ → Tables → Tables
unfolding purge_codes
retain cutoff now s = record {
  messages = delete_where (λ m. ltb m.created_at cutoff) s.messages;
  voicemails = delete_where (λ v. ltb (v.created_at + voicemail_life) now) s.voicemails;
  auth = record s.auth {
    reset_tokens =
        delete_where (λ t. ltb (t.created_at + reset_token_life) now) s.auth.reset_tokens;
    otp_codes = purge_codes now s.auth.otp_codes;
  };
}
