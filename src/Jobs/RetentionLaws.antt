-- ===== src/Jobs/RetentionLaws.antt =====
-- What the nightly jobs leave of the answers that users get.
use callnow.Base.{
  ℕ, Bool, List, Option, String, exists_where, find_first, find_newest, some, delete_where,
  if◌then◌else◌, ◌≡◌, false, ltb, none, ◌≤◌, All, ◌+◌, ◌∷◌, Option-cases, arith, ok, [], inl, inr,
  refl, update_where, ◌&&◌, Bool-cases, is_none, sym, ◌==◌, ◌∙◌, err, true, bad_request, fault,
  validation_error,
}
use callnow.Auth.Tokens.{
  refresh, issue_tokens, find_token, find_user, is_dead, has_token, by_hash, revoke_id, revoke,
  session_of,
}
use callnow.Auth.Otp.{has_recent, verify_phone_otp, otp_life, for_login, find_current, phone_user}
use callnow.Jobs.Retention.{purge_codes, retain, cleanup_tokens, Tables, otp_code_life}
use callnow.Auth.{Crypto, Draw, OtpCode, Store, Session, RefreshToken, User, MailToken}
use callnow.Auth.Accounts.{create_user, find_phone}

module _ {A : Type 0} where
  find_first-delete_where :
      (p q : A → Bool) (xs : List A) (x : A)
      → find_first p xs ≡ some x
      → q x ≡ false
      → find_first p (delete_where q xs) ≡ some x
  find_first-delete_where p q [] x h keep = cc
  find_first-delete_where p q (y ∷ xs) x h keep = ground (arith, find_first-delete_where p q xs x)

  exists-delete_where :
      (p q : A → Bool) (xs : List A)
      → exists_where p xs ≡ false
      → exists_where p (delete_where q xs) ≡ false
  exists-delete_where p q [] h = refl
  exists-delete_where p q (y ∷ xs) h = ground (arith, exists-delete_where p q xs)

  abbrev pub keep_fresh : (A → Bool) → Option A → Option A
  keep_fresh old none = none
  keep_fresh old (some x) = if old x then none else some x

  -- The newest row is deleted for its age only if all rows are.
  find_newest-delete_where :
      (time : A → ℕ) (p : A → Bool) (life now : ℕ) (xs : List A)
      → find_newest time p (delete_where (λ x. ltb (time x + life) now) xs)
        ≡ keep_fresh (λ x. ltb (time x + life) now) (find_newest time p xs)
  find_newest-delete_where time p life now [] = refl
  find_newest-delete_where time p life now (x ∷ xs) = elim (Option-cases (find_newest time p xs)) [
    | inl empty ↦ ground (arith, find_newest-delete_where time p life now xs)
    | inr (y, found) ↦ ground (arith, find_newest-delete_where time p life now xs)
  ]

module _ {A : Type 0} where
  exists-update_kept :
      (p q : A → Bool) (f : A → A) (xs : List A)
      → ((x : A) → p (f x) ≡ p x)
      → exists_where p (update_where q f xs) ≡ exists_where p xs
  exists-update_kept p q f [] same = refl
  exists-update_kept p q f (x ∷ xs) same = ground (arith, same x, exists-update_kept p q f xs same)

  All-find_newest :
      (P : A → Type 0) (time : A → ℕ) (p : A → Bool) (xs : List A) (x : A)
      → All P xs
      → find_newest time p xs ≡ some x
      → P x
  All-find_newest P time p [] x all h = cc
  All-find_newest P time p (y ∷ ys) x all h = elim (Option-cases (find_newest time p ys)) [
    | inl empty ↦ elim (Bool-cases (p y)) [
      | inl hit ↦ let same : y ≡ x = ground arith in rw (sym same) all.0
      | inr miss ↦ absurd (ground arith)
    ]
    | inr (z, found) ↦ elim (Bool-cases (p y)) [
      | inl hit ↦ elim (Bool-cases (ltb (time y) (time z))) [
        | inl newer ↦ All-find_newest P time p ys x all.1 (ground arith)
        | inr older ↦ let same : y ≡ x = ground arith in rw (sym same) all.0
      ]
      | inr miss ↦ All-find_newest P time p ys x all.1 (ground arith)
    ]
  ]

find_current-purge_codes :
    (at : ℕ) (phone : String) (codes : List OtpCode)
    → find_current phone (purge_codes at codes)
      ≡ keep_fresh (λ o. ltb (o.created_at + otp_code_life) at) (find_current phone codes)
unfolding find_current purge_codes
find_current-purge_codes at phone codes =
    find_newest-delete_where (λ o. o.created_at) (λ o. for_login phone o && is_none o.used_at)
      otp_code_life at codes

All-find_current :
    (phone : String) (codes : List OtpCode) (o : OtpCode)
    → All (λ x. x.expires_at ≡ x.created_at + otp_life) codes
    → find_current phone codes ≡ some o
    → o.expires_at ≡ o.created_at + otp_life
unfolding find_current
All-find_current phone codes o lives found =
    All-find_newest (λ x. x.expires_at ≡ x.created_at + otp_life) (λ x. x.created_at)
      (λ x. for_login phone x && is_none x.used_at) codes o lives found

renewal_kept :
    (at : ℕ) (new id : String) (now : ℕ) (rows : List RefreshToken)
    → has_token new (revoke_id now id rows) ≡ false
    → has_token new (revoke_id now id (delete_where (λ t. ltb t.expires_at at) rows)) ≡ false
unfolding has_token revoke_id
renewal_kept at new id now rows fresh =
    exists-update_kept (by_hash new) (λ t. t.id == id) (revoke now)
      (delete_where (λ t. ltb t.expires_at at) rows) (λ t. refl)
    ∙ exists-delete_where (by_hash new) (λ t. ltb t.expires_at at) rows
        (sym (exists-update_kept (by_hash new) (λ t. t.id == id) (revoke now) rows (λ t. refl))
          ∙ fresh)

find_token-cleanup :
    (at : ℕ) (hash : String) (rows : List RefreshToken) (t : RefreshToken)
    → find_token hash rows ≡ some t
    → ltb t.expires_at at ≡ false
    → find_token hash (delete_where (λ x. ltb x.expires_at at) rows) ≡ some t
unfolding find_token
find_token-cleanup at hash rows t =
    find_first-delete_where (by_hash hash) (λ x. ltb x.expires_at at) rows t

-- An answer to a code depends on the code that is current, the users and the sessions alone.
answer_kept :
    (c : Crypto) (now : ℕ) (d : Draw) (phone code : String) (s : Store) (mails : List MailToken)
    (codes : List OtpCode)
    → find_current phone codes ≡ find_current phone s.otp_codes
    → (verify_phone_otp c now d phone code (record s { reset_tokens = mails; otp_codes = codes })).0
      ≡ (verify_phone_otp c now d phone code s).0
unfolding verify_phone_otp phone_user create_user issue_tokens
answer_kept c now d phone code s mails codes same =
    elim (Option-cases (find_current phone s.otp_codes)) [
      | inl missing ↦ ground arith
      | inr (o, found) ↦ elim (Option-cases (find_phone phone s.users)) [
        | inl stranger ↦ ground arith
        | inr (u, there) ↦ ground arith
      ]
    ]

expired_answer :
    (c : Crypto) (now : ℕ) (d : Draw) (phone code : String) (s : Store) (o : OtpCode)
    → find_current phone s.otp_codes ≡ some o
    → ltb o.expires_at now ≡ true
    → (verify_phone_otp c now d phone code s).0 ≡ err (bad_request validation_error)
unfolding verify_phone_otp
expired_answer c now d phone code s o found expired = ground arith

missing_answer :
    (c : Crypto) (now : ℕ) (d : Draw) (phone code : String) (s : Store)
    → find_current phone s.otp_codes ≡ none
    → (verify_phone_otp c now d phone code s).0 ≡ err (bad_request validation_error)
unfolding verify_phone_otp
missing_answer c now d phone code s found = ground arith

-- a refresh token that is found alive, with its user
renewed_answer :
    (c : Crypto) (now : ℕ) (d : Draw) (refresh_token : String) (s : Store) (t : RefreshToken)
    (u : User)
    → find_token (c.sha256 refresh_token) s.refresh_tokens ≡ some t
    → find_user t.user_id s.users ≡ some u
    → is_dead c now t ≡ false
    → (refresh c now d refresh_token s).0 ≡ (
        if has_token (c.sha256 d.secret) (revoke_id now t.id s.refresh_tokens)
        then err fault
        else ok (session_of c now d u.id u.email u.role))
unfolding refresh issue_tokens
renewed_answer c now d refresh_token s t u found there alive = ground arith

-- A session that a refresh token renews before the cleanup is renewed after it too.
pub refresh-cleanup_tokens :
    (c : Crypto) (now at : ℕ) (d : Draw) (refresh_token : String) (s : Store) (issued : Session)
    → at ≤ now
    → (refresh c now d refresh_token s).0 ≡ ok issued
    → (refresh c now d refresh_token (cleanup_tokens at s)).0 ≡ ok issued
unfolding refresh cleanup_tokens
refresh-cleanup_tokens c now at d refresh_token s issued earlier renewed =
    let renewed_before = renewed_answer c now d refresh_token s in
    let renewed_after = renewed_answer c now d refresh_token (cleanup_tokens at s) in
    elim (Option-cases (find_token (c.sha256 refresh_token) s.refresh_tokens)) [
      | inl unknown ↦ absurd (ground arith)
      | inr (t, found) ↦ elim (Option-cases (find_user t.user_id s.users)) [
        | inl gone ↦ absurd (ground arith)
        | inr (u, there) ↦ elim (Bool-cases (is_dead c now t)) [
          | inl dead ↦ absurd (ground arith)
          | inr alive ↦
              let kept =
                find_token-cleanup at (c.sha256 refresh_token) s.refresh_tokens t found
                  (ground arith) in
              let before = renewed_before t u found there alive in
              let after = renewed_after t u kept there alive in
              let fresh = renewal_kept at (c.sha256 d.secret) t.id now s.refresh_tokens in
              elim (Bool-cases
                (has_token (c.sha256 d.secret) (revoke_id now t.id s.refresh_tokens))) [
                  | inl taken ↦
                      let failed : err fault ≡ ok issued = rw (before, taken) at renewed in
                      absurd (ground arith)
                  | inr free ↦ after ∙ (rw (fresh free) (rw (before, free) at renewed))
                ]
        ]
      ]
    ]

-- The purge of one-time codes changes no answer to a code that is tried after it: what it deletes
-- has expired, where every code lives for five minutes.
pub verify_phone_otp-retain :
    (c : Crypto) (now at cutoff : ℕ) (d : Draw) (phone code : String) (s : Tables)
    → at ≤ now
    → All (λ o. o.expires_at ≡ o.created_at + otp_life) s.auth.otp_codes
    → (verify_phone_otp c now d phone code (retain cutoff at s).auth).0
      ≡ (verify_phone_otp c now d phone code s.auth).0
unfolding retain
verify_phone_otp-retain c now at cutoff d phone code s earlier lives =
    let newest = find_current-purge_codes at phone s.auth.otp_codes in
    let purged = (retain cutoff at s).auth in
    let kept = answer_kept c now d phone code s.auth purged.reset_tokens purged.otp_codes in
    elim (Option-cases (find_current phone s.auth.otp_codes)) [
      | inl none_left ↦ kept (newest ∙ rw none_left refl)
      | inr (o, found) ↦ elim (Bool-cases (ltb (o.created_at + otp_code_life) at)) [
        | inl old ↦
            let life = All-find_current phone s.auth.otp_codes o lives found in
            missing_answer c now d phone code purged (newest ∙ rw (found, old) refl)
            ∙ sym (expired_answer c now d phone code s.auth o found (ground (arith, life)))
        | inr fresh ↦ kept (newest ∙ rw (found, fresh) refl)
      ]
    ]

-- Nor does it make a request for a code come through that the pause of a minute refuses.
pub has_recent-purge_codes :
    (now at : ℕ) (phone : String) (codes : List OtpCode)
    → at ≤ now
    → has_recent now phone (purge_codes at codes) ≡ has_recent now phone codes
unfolding has_recent purge_codes
has_recent-purge_codes now at phone [] earlier = refl
has_recent-purge_codes now at phone (o ∷ codes) earlier =
    ground (arith, has_recent-purge_codes now at phone codes earlier)
