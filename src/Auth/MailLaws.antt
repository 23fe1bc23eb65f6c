-- ===== src/Auth/MailLaws.antt =====
-- Mailed tokens are spent once: auth.service.ts, `verifyEmail` and `resetPassword`.
use callnow.Base.{
  String, List, ℕ, count_where, ◌≡◌, none, some, ◌==◌, update_where, ◌∷◌, Bool-cases, arith, [],
  inl, inr, refl, eq_refl, err, ok, ◌≤◌, Option-cases, bad_request, true, find_first-holds,
  validation_error, find_first-update_where,
}
use callnow.Auth.Accounts.{find_unused, find_email, mark_used, set_verified, verify_email}
use callnow.Auth.{MailToken, Crypto, Draw, Store, User}
use callnow.Auth.Password.{reset_password}

-- how many rows have the hash
abbrev pub rows_with : String → List MailToken → ℕ
rows_with hash = count_where (λ t. t.token_hash == hash)

find_unused-none :
    (hash : String) (rows : List MailToken) → rows_with hash rows ≡ 0 → find_unused hash rows ≡ none
unfolding find_unused
find_unused-none hash [] h = refl
find_unused-none hash (t ∷ rows) h = ground (arith, find_unused-none hash rows)

find_unused-mark_none :
    (now : ℕ) (hash id : String) (rows : List MailToken)
    → rows_with hash rows ≡ 0
    → find_unused hash (update_where (λ t. t.id == id) (λ t. record t { used_at = some now }) rows)
      ≡ none
unfolding find_unused
find_unused-mark_none now hash id [] h = refl
find_unused-mark_none now hash id (t ∷ rows) h =
    ground (arith, find_unused-mark_none now hash id rows)

-- the table once the found row is marked, where no other row has the hash
find_unused-mark :
    (now : ℕ) (hash : String) (rows : List MailToken) (row : MailToken)
    → rows_with hash rows ≡ 1
    → find_unused hash rows ≡ some row
    → find_unused hash
        (update_where (λ t. t.id == row.id) (λ t. record t { used_at = some now }) rows)
      ≡ none
unfolding find_unused
find_unused-mark now hash [] row one found = cc
find_unused-mark now hash (t ∷ rows) row one found = elim (Bool-cases (t.token_hash == hash)) [
  | inl hit ↦
      ground (
        arith,
        eq_refl t.id,
        find_unused-none hash rows,
        find_unused-mark_none now hash row.id rows,
      )
  | inr miss ↦ ground (arith, find_unused-mark now hash rows row)
]

find_unused-mark_used :
    (now : ℕ) (hash : String) (rows rows' : List MailToken) (row : MailToken)
    → rows_with hash rows ≡ 1
    → find_unused hash rows ≡ some row
    → mark_used now row.id rows ≡ some rows'
    → find_unused hash rows' ≡ none
unfolding mark_used
find_unused-mark_used now hash rows rows' row one found marked =
    ground (arith, find_unused-mark now hash rows row one found)

find_email-set_verified :
    (email : String) (users users' : List User) (u : User)
    → find_email email users ≡ some u
    → set_verified email users ≡ some users'
    → find_email email users' ≡ some (record u { email_verified = true })
unfolding find_email set_verified
find_email-set_verified email users users' u known e =
    let hit = find_first-holds (λ v. v.email == email) users u known in
    ground (
      arith,
      hit,
      find_first-update_where (λ v. v.email == email) (λ v. v.email == email)
          (λ v. record v { email_verified = true }) users u (λ v. refl) known,
    )

module _ (c : Crypto) (now later : ℕ) where
  -- what a verification that is answered has found and written
  pub record Verified (token : String) (s : Store) : Type 0 where
    pub row : MailToken
    pub found : find_unused (c.sha256 token) s.email_tokens ≡ some row
    pub alive : now ≤ row.expires_at
    pub spent :
        mark_used now row.id s.email_tokens ≡ some (verify_email c now token s).1.email_tokens
    pub marked : set_verified row.email s.users ≡ some (verify_email c now token s).1.users

  verify_email-Verified :
      (token : String) (s : Store) → (verify_email c now token s).0 ≡ ok tt → Verified token s
  unfolding verify_email
  verify_email-Verified token s e =
      elim (Option-cases (find_unused (c.sha256 token) s.email_tokens)) [
        | inl missing ↦ absurd (ground arith)
        | inr (row, found) ↦ elim (Option-cases (set_verified row.email s.users)) [
          | inl lost ↦ absurd (ground arith)
          | inr (users, marked) ↦ elim (Option-cases (mark_used now row.id s.email_tokens)) [
            | inl lost ↦ absurd (ground arith)
            | inr (tokens, spent) ↦ record {
              row = row;
              found = found;
              alive = ground arith;
              spent = ground arith;
              marked = ground arith;
            }
          ]
        ]
      ]

  verify_email_missing :
      (token : String) (s : Store)
      → find_unused (c.sha256 token) s.email_tokens ≡ none
      → (verify_email c later token s).0 ≡ err (bad_request validation_error)
  unfolding verify_email
  verify_email_missing token s missing = ground arith

  reset_password_missing :
      (d : Draw) (token password : String) (s : Store)
      → find_unused (c.sha256 token) s.reset_tokens ≡ none
      → (reset_password c later d token password s).0 ≡ err (bad_request validation_error)
  unfolding reset_password
  reset_password_missing d token password s missing = ground arith

  reset-spent :
      (d : Draw) (token password : String) (s : Store)
      → (reset_password c now d token password s).0 ≡ ok tt
      → rows_with (c.sha256 token) s.reset_tokens ≡ 1
      → find_unused (c.sha256 token) (reset_password c now d token password s).1.reset_tokens ≡ none
  unfolding reset_password
  reset-spent d token password s done one =
      elim (Option-cases (find_unused (c.sha256 token) s.reset_tokens)) [
        | inl missing ↦ absurd (ground arith)
        | inr (row, found) ↦ elim (Option-cases (mark_used now row.id s.reset_tokens)) [
          | inl lost ↦ absurd (ground arith)
          | inr (tokens, spent) ↦ ground (
            arith,
            find_unused-mark_used now (c.sha256 token) s.reset_tokens tokens row one found spent,
          )
        ]
      ]

  -- A verification link works once, if no two rows have its hash: it marks the account with its
  -- address as verified, and a second use is refused with VALIDATION_ERROR.
  pub verify_email_once :
      (token : String) (s : Store) (row : MailToken) (user : User)
      → (verify_email c now token s).0 ≡ ok tt
      → rows_with (c.sha256 token) s.email_tokens ≡ 1
      → find_unused (c.sha256 token) s.email_tokens ≡ some row
      → find_email row.email s.users ≡ some user
      → (find_email row.email (verify_email c now token s).1.users
          ≡ some (record user { email_verified = true }))
        × ((verify_email c later token (verify_email c now token s).1).0
            ≡ err (bad_request validation_error))
  verify_email_once token s row user done one found known =
      let v = verify_email-Verified token s done in
      let same : v.row ≡ row = cc (v.found) in
      (
        find_email-set_verified row.email s.users _ user known (rw same at v.marked),
        verify_email_missing token (verify_email c now token s).1
            (find_unused-mark_used now (c.sha256 token) s.email_tokens _ v.row one v.found v.spent),
      )

  -- A reset link works once, if no two rows have its hash: after a reset that is answered, the
  -- same link is refused with VALIDATION_ERROR.
  pub reset_password_once :
      (d d' : Draw) (token first second : String) (s : Store)
      → (reset_password c now d token first s).0 ≡ ok tt
      → rows_with (c.sha256 token) s.reset_tokens ≡ 1
      → (reset_password c later d' token second (reset_password c now d token first s).1).0
        ≡ err (bad_request validation_error)
  reset_password_once d d' token first second s done one =
      reset_password_missing d' token second (reset_password c now d token first s).1
        (reset-spent d token first s done one)
