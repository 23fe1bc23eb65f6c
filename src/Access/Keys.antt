-- ===== src/Access/Keys.antt =====
-- Which API keys the guard accepts.
use Prim.Native.String
use Prim.Native.String.{slice}
use text.Mathlib.TextPositions.{len-append, slice-append_right, starts_with-append}
use callnow.Base.{
  ℕ, Bool, String, List, Option, find_first, ◌≡◌, find_many, ok, some, true, is_none, ◌&&◌, ◌==◌,
  false, ◌∷◌, arith, none, [], refl, Option-cases, not, inl, sym, inr, ◌∙◌, find_first-holds,
  eq_iff, All, Bool-cases, All-find_first, insert_row, ap, find_first-append_none, eq_refl,
}
use callnow.Access.{
  ApiKey, Bool, List, can_activate, find_match, revoke_api_key, Option, create_api_key, find_first,
  set_revoked, ApiUser, find_many, some, is_candidate, is_none, raw_key_of, false, is_expired,
  key_start, prefix_of, none, default_scopes, not, new_key, find_own_key, insert_row,
}
use Prim.Native.String.{String, ◌∷◌}

module _ {A : Type 0} where
  find_first-find_many :
      (p q : A → Bool) (xs : List A)
      → find_first p (find_many q xs) ≡ find_first (λ x. q x && p x) xs
  find_first-find_many p q [] = refl
  find_first-find_many p q (x ∷ xs) = ground (arith, find_first-find_many p q xs)

raw_key_of-bearer : (raw : String) → raw_key_of (some (String.◌++◌ "Bearer " raw)) ≡ some raw
unfolding raw_key_of
raw_key_of-bearer raw =
    let header = String.◌++◌ "Bearer " raw in
    rw (starts_with-append "Bearer " raw) (
      ap some
        (ap (λ n. slice header 7 n) (len-append "Bearer " raw) ∙ slice-append_right "Bearer " raw))

module _ (bcrypt_hash : String → String → String) (bcrypt_compare : String → String → Bool) where
  -- the row that the guard takes a key to be
  abbrev pub matched : ℕ → String → List ApiKey → Option ApiKey
  matched now raw rows =
      find_match bcrypt_hash bcrypt_compare now raw (find_many (is_candidate (prefix_of raw)) rows)

  abbrev pub fits : ℕ → String → ApiKey → Bool
  fits now raw x =
      is_candidate (prefix_of raw) x
      && (not (is_expired now x.expires_at) && bcrypt_compare raw x.key_hash)

  matched-find_first :
      (now : ℕ) (raw : String) (rows : List ApiKey)
      → matched now raw rows ≡ find_first (fits now raw) rows
  unfolding find_match
  matched-find_first now raw rows =
      find_first-find_many (λ x. not (is_expired now x.expires_at) && bcrypt_compare raw x.key_hash)
        (is_candidate (prefix_of raw)) rows

  matched-holds :
      (now : ℕ) (raw : String) (rows : List ApiKey) (k : ApiKey)
      → matched now raw rows ≡ some k
      → (is_none k.revoked_at ≡ true)
        × (is_expired now k.expires_at ≡ false)
        × (bcrypt_compare raw k.key_hash ≡ true)
        × (k.key_prefix ≡ prefix_of raw)
  matched-holds now raw rows k found =
      let holds =
        find_first-holds (fits now raw) rows k (sym (matched-find_first now raw rows) ∙ found) in
      (
        ground (arith, holds),
        ground (arith, holds),
        ground (arith, holds),
        ground (arith, holds, eq_iff k.key_prefix (prefix_of raw)),
      )

  matched-All :
      (P : ApiKey → Type 0) (now : ℕ) (raw : String) (rows : List ApiKey) (k : ApiKey)
      → All P rows
      → matched now raw rows ≡ some k
      → P k
  matched-All P now raw rows k all found =
      All-find_first P (fits now raw) rows all (sym (matched-find_first now raw rows) ∙ found)

  set_revoked-All :
      (now : ℕ) (id : String) (rows : List ApiKey)
      → All (λ x. (x.id == id) ≡ true → is_none x.revoked_at ≡ false) (set_revoked now id rows)
  unfolding set_revoked
  set_revoked-All now id [] = tt
  set_revoked-All now id (x ∷ rows) = ((λ e. ground arith), set_revoked-All now id rows)

  revoke_api_key-All :
      (now : ℕ) (user_id id : String) (rows : List ApiKey)
      → (revoke_api_key now user_id id rows).0 ≡ ok tt
      → All
          (λ x. (x.id == id) ≡ true → is_none x.revoked_at ≡ false)
          (revoke_api_key now user_id id rows).1
  unfolding revoke_api_key
  revoke_api_key-All now user_id id rows revoked =
      elim (Option-cases (find_own_key id user_id rows)) [
        | inl missing ↦ absurd (ground arith)
        | inr (k, own) ↦
            let done : (revoke_api_key now user_id id rows).1 ≡ set_revoked now id rows =
              ground arith in
            rw done (set_revoked-All now id rows)
      ]

  -- Whom the guard lets in has a key in the table that is neither revoked nor expired and whose hash
  -- the key matches, and is that key's owner with that key's scopes.
  pub can_activate-guard :
      (now : ℕ) (header : Option String) (rows : List ApiKey) (u : ApiUser)
      → (can_activate bcrypt_hash bcrypt_compare now header rows).0 ≡ ok u
      → (raw : String) × (k : ApiKey) × (raw_key_of header ≡ some raw)
        × (matched now raw rows ≡ some k)
        × (is_none k.revoked_at ≡ true)
        × (is_expired now k.expires_at ≡ false)
        × (bcrypt_compare raw k.key_hash ≡ true)
        × (u ≡ record { id = k.user_id; scopes = k.scopes })
  unfolding can_activate
  can_activate-guard now header rows u let_in = elim (Option-cases (raw_key_of header)) [
    | inl missing ↦ absurd (ground arith)
    | inr (raw, sent) ↦ elim (Option-cases (matched now raw rows)) [
      | inl unknown ↦ absurd (ground arith)
      | inr (k, found) ↦
          let holds = matched-holds now raw rows k found in
          (raw, k, sent, found, holds.0, holds.1, holds.2, ground arith)
    ]
  ]

  -- A key that its owner has revoked is no longer what the guard takes any key to be.
  pub revoke_api_key-matched :
      (now later : ℕ) (user_id id raw : String) (rows : List ApiKey) (k : ApiKey)
      → (revoke_api_key now user_id id rows).0 ≡ ok tt
      → matched later raw (revoke_api_key now user_id id rows).1 ≡ some k
      → (k.id == id) ≡ false
  revoke_api_key-matched now later user_id id raw rows k revoked found =
      elim (Bool-cases (k.id == id)) [
        | inr other ↦ other
        | inl same ↦
            let after = (revoke_api_key now user_id id rows).1 in
            let off =
              matched-All (λ x. (x.id == id) ≡ true → is_none x.revoked_at ≡ false) later raw after
                k (revoke_api_key-All now user_id id rows revoked) found in
            let on = matched-holds later raw after k found in
            absurd (ground (arith, on.0, off same))
      ]

  -- A key that was just created opens the guard for its owner when it is sent as a bearer token, as
  -- long as no other key matches, where bcrypt recognises what it has hashed.
  pub create_api_key-can_activate :
      (now later : ℕ) (id salt hex user_id name : String) (scopes : Option (List String))
      (rows : List ApiKey)
      → ((raw s : String) → bcrypt_compare raw (bcrypt_hash s raw) ≡ true)
      → let raw = String.◌++◌ key_start hex in
        let after =
          (create_api_key bcrypt_hash bcrypt_compare now id salt hex user_id name scopes rows).1 in
        matched later raw rows ≡ none
        → (can_activate bcrypt_hash bcrypt_compare later (some (String.◌++◌ "Bearer " raw)) after).0
          ≡ ok (record { id = user_id; scopes = default_scopes scopes })
  unfolding can_activate create_api_key
  create_api_key-can_activate now later id salt hex user_id name scopes rows sound fresh =
      let raw = String.◌++◌ key_start hex in
      let k = new_key bcrypt_hash bcrypt_compare now id salt user_id name scopes raw in
      let found : matched later raw (insert_row k rows) ≡ some k =
        matched-find_first later raw (insert_row k rows)
        ∙ find_first-append_none (fits later raw) rows k
            (sym (matched-find_first later raw rows) ∙ fresh)
        ∙ ground (arith, eq_refl (prefix_of raw), sound raw salt) in
      ground (arith, raw_key_of-bearer raw, starts_with-append key_start hex, found)
