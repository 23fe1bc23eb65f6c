-- ===== src/Auth/OtpLaws.antt =====
-- One-time codes by telephone: auth.service.ts, `requestPhoneOtp` and `verifyPhoneOtp`.
use callnow.Auth.Otp.{
  find_current, count_attempt, verify_phone_otp, for_login, has_recent, request_phone_otp, cooldown,
  new_otp,
}
use callnow.Auth.{Crypto, String, ℕ, Draw, List, OtpCode, Store}
use callnow.Base.{
  String, ℕ, List, ◌≡◌, some, ◌+◌, ◌≤◌, eq_iff, err, ◌<◌, bad_request, false,
  find_newest-update_where, rate_limited, validation_error, arith, ◌&&◌, is_none, ◌==◌, refl,
  length, min, ok, true, eq_refl, insert_row, ◌∷◌, [], dec_lt,
}

find_current-count_attempt :
    (id phone : String) (rows : List OtpCode) (row : OtpCode)
    → find_current phone rows ≡ some row
    → row.id ≡ id
    → find_current phone (count_attempt id rows) ≡ some (record row { attempts = row.attempts + 1 })
unfolding find_current count_attempt
find_current-count_attempt id phone rows row e same =
    rw (e, (eq_iff _ _).1 same) at
      (find_newest-update_where (λ o. o.created_at) (λ o. for_login phone o && is_none o.used_at)
        (λ o. o.id == id) (λ o. record o { attempts = o.attempts + 1 }) rows (λ o. refl)
        (λ o. refl))

module _ (c : Crypto) where
  -- One wrong guess at a code that is neither expired nor locked.
  guess_wrong :
      (now : ℕ) (d : Draw) (phone code : String) (s : Store) (row : OtpCode)
      → find_current phone s.otp_codes ≡ some row
      → now ≤ row.expires_at
      → row.attempts < row.max_attempts
      → c.bcrypt_compare code row.code_hash ≡ false
      → verify_phone_otp c now d phone code s ≡ (
        err (bad_request validation_error),
        record s { otp_codes = count_attempt row.id s.otp_codes },
      )
  unfolding verify_phone_otp
  guess_wrong now d phone code s row found alive free wrong = ground arith

  -- A code that has used up its attempts is refused before it is compared, and nothing is written.
  pub guess_locked :
      (now : ℕ) (d : Draw) (phone code : String) (s : Store) (row : OtpCode)
      → find_current phone s.otp_codes ≡ some row
      → now ≤ row.expires_at
      → row.max_attempts ≤ row.attempts
      → verify_phone_otp c now d phone code s ≡ (err (bad_request rate_limited), s)
  unfolding verify_phone_otp
  guess_locked now d phone code s row found alive locked = ground arith

  -- a guess: when it is made, what it draws, and the digits
  abbrev pub Guess : Type 0
  Guess = ℕ × Draw × String

  -- the store after a run of guesses at one telephone number
  unfoldable pub guesses : String → List Guess → Store → Store
  guesses phone [] s = s
  guesses phone ((now, d, code) ∷ gs) s = guesses phone gs (verify_phone_otp c now d phone code s).1

  -- Every guess of a run is made before the code expires, and is wrong.
  abbrev pub AllWrong : OtpCode → List Guess → Type 0
  AllWrong row [] = Unit {0}
  AllWrong row ((now, d, code) ∷ gs) =
      (now ≤ row.expires_at) × (c.bcrypt_compare code row.code_hash ≡ false) × AllWrong row gs

  -- the row under attack, after a run of wrong guesses
  guesses-find_current :
      (phone : String) (gs : List Guess) (s : Store) (row : OtpCode)
      → find_current phone s.otp_codes ≡ some row
      → AllWrong row gs
      → (n : ℕ) × (find_current phone (guesses phone gs s).otp_codes
          ≡ some (record row { attempts = n }))
        × (min row.max_attempts (row.attempts + length gs) ≤ n)
  unfolding guesses
  guesses-find_current phone [] s row found wrong = (row.attempts, found, omega arith)
  guesses-find_current phone ((now, d, code) ∷ gs) s row found wrong =
      elim (dec_lt row.attempts row.max_attempts) [
        | yes free ↦
            let s' = record s { otp_codes = count_attempt row.id s.otp_codes } in
            let (n, there, many) =
              guesses-find_current phone gs s' (record row { attempts = row.attempts + 1 })
                (find_current-count_attempt row.id phone s.otp_codes row found refl) wrong.2 in
            (
              n,
              rw (guesses, guess_wrong now d phone code s row found wrong.0 free wrong.1) there,
              omega arith,
            )
        | no full ↦
            let (n, there, many) = guesses-find_current phone gs s row found wrong.2 in
            (
              n,
              rw (guesses, guess_locked now d phone code s row found wrong.0 (omega arith)) there,
              omega arith,
            )
      ]

  -- Once as many wrong guesses have been made as the code has attempts left, every further code is
  -- refused with RATE_LIMITED until the code expires, the right one too, and nothing is written.
  pub otp_guess_limit :
      (now : ℕ) (d : Draw) (phone code : String) (gs : List Guess) (s : Store) (row : OtpCode)
      → find_current phone s.otp_codes ≡ some row
      → AllWrong row gs
      → row.max_attempts ≤ row.attempts + length gs
      → now ≤ row.expires_at
      → verify_phone_otp c now d phone code (guesses phone gs s)
        ≡ (err (bad_request rate_limited), guesses phone gs s)
  otp_guess_limit now d phone code gs s row found wrong enough alive =
      let (n, there, many) = guesses-find_current phone gs s row found wrong in
      guess_locked now d phone code (guesses phone gs s) (record row { attempts = n }) there alive
        (omega arith)

  has_recent-insert_row :
      (now : ℕ) (phone : String) (rows : List OtpCode) (o : OtpCode)
      → for_login phone o ≡ true
      → now ≤ o.created_at + cooldown
      → has_recent now phone (insert_row o rows) ≡ true
  unfolding has_recent
  has_recent-insert_row now phone [] o own soon = ground arith
  has_recent-insert_row now phone (x ∷ rows) o own soon =
      ground (arith, has_recent-insert_row now phone rows o own soon)

  -- Within sixty seconds of a request that was answered, a second request for the same number is
  -- refused with RATE_LIMITED: it stores no code and asks the provider for no message.
  pub request_cooldown :
      (now later : ℕ) (d d' : Draw) (phone : String) (s : Store)
      → (request_phone_otp c now d phone s).0 ≡ ok tt
      → later ≤ now + 60000
      → request_phone_otp c later d' phone (request_phone_otp c now d phone s).1
        ≡ (err (bad_request rate_limited), (request_phone_otp c now d phone s).1)
  unfolding request_phone_otp
  request_cooldown now later d d' phone s done soon =
      ground (
        arith,
        eq_refl phone,
        has_recent-insert_row later phone s.otp_codes (new_otp c now d phone),
      )
