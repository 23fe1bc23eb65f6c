-- ===== src/Access.antt =====
-- backend/src/api-keys: the service and the guard, with the columns of backend/prisma/schema.prisma
-- that they use; and backend/src/common/throttler. Times are milliseconds.
pub mod Keys
pub mod Throttle
mod Examples
use Prim.Native.String
use Prim.Native.String.{len, slice, String, []}
use text.Mathlib.Text.{starts_with}
use callnow.Base.{
  ℕ, List, Option, String, some, Action, Bool, find_first, if◌then◌else◌, none, update_where, ◌∷◌,
  [], false, gets, not, ◌==◌, ◌>>=◌, ◌>>◌, ltb, map, modify, or_throw, require, throw_if, ◌&&◌,
  find_many, insert_row, is_none, not_found_exception, unauthorized_exception, not_found, pure,
  unauthorized,
}

pub record ApiKey : Type 0 where
  pub id : String
  pub user_id : String
  pub name : String
  pub key_prefix : String
  pub key_hash : String
  pub scopes : List String
  pub expires_at : Option ℕ
  pub revoked_at : Option ℕ
  pub created_at : ℕ

-- `request.user`
pub record ApiUser : Type 0 where
  pub id : String
  pub scopes : List String

-- a row without its hash, with the key itself
pub record CreatedKey : Type 0 where
  pub id : String
  pub user_id : String
  pub name : String
  pub key_prefix : String
  pub scopes : List String
  pub raw_key : String

-- what is listed of a row
pub record ListedKey : Type 0 where
  pub id : String
  pub name : String
  pub key_prefix : String
  pub scopes : List String
  pub expires_at : Option ℕ
  pub created_at : ℕ

abbrev pub key_start : String
key_start = "vl_"

-- `substring(0, 8)`
unfoldable pub prefix_of : String → String
prefix_of raw = slice raw 0 8

abbrev pub default_scopes : Option (List String) → List String
default_scopes none = "sms:send" ∷ "calls:read" ∷ []
default_scopes (some scopes) = scopes

-- the condition `revokedAt: null` and the prefix
abbrev pub is_candidate : String → ApiKey → Bool
is_candidate prefix k = k.key_prefix == prefix && is_none k.revoked_at

abbrev pub is_expired : ℕ → Option ℕ → Bool
is_expired now none = false
is_expired now (some t) = ltb t now

abbrev pub revoke : ℕ → ApiKey → ApiKey
revoke now k = record k { revoked_at = some now }

unfoldable pub find_own_key : String → String → List ApiKey → Option ApiKey
find_own_key id user_id = find_first (λ k. k.id == id && k.user_id == user_id)

unfoldable pub set_revoked : ℕ → String → List ApiKey → List ApiKey
set_revoked now id = update_where (λ k. k.id == id) (revoke now)

-- `authHeader.replace('Bearer ', '')`, of a header that starts so
abbrev pub bearer : String → Option String
bearer header = if starts_with header "Bearer " then some (slice header 7 (len header)) else none

unfoldable pub raw_key_of : Option String → Option String
raw_key_of none = none
raw_key_of (some header) = bearer header

-- The functions are bcrypt's; `salt` is drawn for the hash, and `hex` is 32 random bytes.
module _ (bcrypt_hash : String → String → String) (bcrypt_compare : String → String → Bool) where
  abbrev pub new_key :
      ℕ → String → String → String → String → Option (List String) → String → ApiKey
  new_key now id salt user_id name scopes raw = record {
    id = id;
    user_id = user_id;
    name = name;
    key_prefix = prefix_of raw;
    key_hash = bcrypt_hash salt raw;
    scopes = default_scopes scopes;
    expires_at = none;
    revoked_at = none;
    created_at = now;
  }

  abbrev pub created : ApiKey → String → CreatedKey
  created k raw = record {
    id = k.id;
    user_id = k.user_id;
    name = k.name;
    key_prefix = k.key_prefix;
    scopes = k.scopes;
    raw_key = raw;
  }

  unfoldable pub create_api_key :
      ℕ
      → String
      → String
      → String
      → String
      → String
      → Option (List String)
      → Action (List ApiKey) CreatedKey
  create_api_key now id salt hex user_id name scopes = do
    modify (insert_row (new_key now id salt user_id name scopes (String.◌++◌ key_start hex)))
    pure (
        created (new_key now id salt user_id name scopes (String.◌++◌ key_start hex))
          (String.◌++◌ key_start hex))

  -- the loop over the candidates
  unfoldable pub find_match : ℕ → String → List ApiKey → Option ApiKey
  find_match now raw =
      find_first (λ k. not (is_expired now k.expires_at) && bcrypt_compare raw k.key_hash)

  abbrev pub check_key : ℕ → String → Action (List ApiKey) ApiUser
  check_key now raw = do
    throw_if (not (starts_with raw key_start)) (unauthorized_exception unauthorized)
    k ←
        require (λ rows. find_match now raw (find_many (is_candidate (prefix_of raw)) rows))
          (unauthorized_exception unauthorized)
    pure (record { id = k.user_id; scopes = k.scopes })

  -- the guard: the user that it attaches to the request
  unfoldable pub can_activate : ℕ → Option String → Action (List ApiKey) ApiUser
  can_activate now header = do
    raw ← or_throw (raw_key_of header) (unauthorized_exception unauthorized)
    check_key now raw

abbrev pub listed : ApiKey → ListedKey
listed k = record {
  id = k.id;
  name = k.name;
  key_prefix = k.key_prefix;
  scopes = k.scopes;
  expires_at = k.expires_at;
  created_at = k.created_at;
}

-- `sort` orders the rows, newest first.
unfoldable pub list_api_keys :
    (List ApiKey → List ApiKey) → String → Action (List ApiKey) (List ListedKey)
list_api_keys sort user_id =
    gets (λ rows.
      map listed (sort (find_many (λ k. k.user_id == user_id && is_none k.revoked_at) rows)))

unfoldable pub revoke_api_key : ℕ → String → String → Action (List ApiKey) (Unit {0})
revoke_api_key now user_id id = do
  require (find_own_key id user_id) (not_found_exception not_found)
  modify (set_revoked now id)
