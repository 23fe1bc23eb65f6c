-- ===== src/Access/Examples.antt =====
-- Runs of the guard for API keys and of the throttler's storage, with a hash that is the key itself.
use callnow.Base.{
  List, String, [], ◌∷◌, none, some, true, false, refl, ◌≡◌, ◌==◌, eq_refl, Bool, is_none, ok,
}
use callnow.Access.{
  ApiKey, Bool, can_activate, find_match, prefix_of, raw_key_of, create_api_key, is_none,
  is_expired, ApiUser,
}
use callnow.Access.Keys.{matched, create_api_key-can_activate, can_activate-guard}

abbrev hash : String → String → String
hash salt raw = raw

abbrev compare_hash : String → String → Bool
compare_hash raw h = raw == h

abbrev live_key : ApiKey
live_key = record {
  id = "k1";
  user_id = "u1";
  name = "ci";
  key_prefix = "vl_aaaaa";
  key_hash = "vl_aaaaaa";
  scopes = "sms:send" ∷ [];
  expires_at = some 100;
  revoked_at = none;
  created_at = 1;
}

abbrev keys : List ApiKey
keys = live_key ∷ []

abbrev ci_user : ApiUser
ci_user = record { id = "u1"; scopes = "sms:send" ∷ [] }

abbrev user_of : ApiKey → ApiUser
user_of k = record { id = k.user_id; scopes = k.scopes }

can_activate-guard_example :
    (raw : String) × (k : ApiKey) × (raw_key_of (some "Bearer vl_aaaaaa") ≡ some raw)
    × (matched hash compare_hash 50 raw keys ≡ some k)
    × (is_none k.revoked_at ≡ true)
    × (is_expired 50 k.expires_at ≡ false)
    × (compare_hash raw k.key_hash ≡ true)
    × (record { id = "u1"; scopes = "sms:send" ∷ [] } ≡ user_of k)
unfolding can_activate raw_key_of find_match prefix_of
can_activate-guard_example =
    can_activate-guard hash compare_hash 50 (some "Bearer vl_aaaaaa") keys ci_user refl

create_api_key-can_activate_example :
    (can_activate hash compare_hash 50
      (some "Bearer vl_bbbbbb")
      (create_api_key hash compare_hash 20 "k3" "salt" "bbbbbb" "u2" "deploy" none keys).1).0
    ≡ ok (record { id = "u2"; scopes = "sms:send" ∷ "calls:read" ∷ [] })
unfolding find_match prefix_of
create_api_key-can_activate_example =
    create_api_key-can_activate hash compare_hash 20 50 "k3" "salt" "bbbbbb" "u2" "deploy" none keys
      (λ raw s. eq_refl raw) refl
