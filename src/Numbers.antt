-- ===== src/Numbers.antt =====
-- backend/src/numbers/numbers.service.ts and backend/src/jobs/number-grace-period.job.ts: a user's
-- telephone numbers, the cache of their owners in Redis, and the release after a grace period.
-- The money column `monthly_cost` is in cents.
pub mod Laws
pub mod Cache
pub mod Lifecycle
pub mod Ownership
pub mod Lookup
pub mod Grace
mod Examples
use callnow.Base.{
  ℕ, Bool, List, String, Action, Option, count_where, false, if◌then◌else◌, none, true,
  update_where, ◌*◌, ◌∷◌, find_first, gets, pure, some, truthy, ◌==◌, [], find_many, or_text, ◌&&◌,
  leb, ◌||◌, ◌+◌, ◌>>=◌, ◌>>◌, modify, require, not_found_exception, ◌++◌, bad_request, map,
  not_found, exists_where, plan_limit_exceeded, throw_if, insert_row, not, or_throw,
  validation_error, fault, truthy?,
}
use callnow.Plans.{Subscription, Plan, plan_of}

pub data NumberStatus : Type 0 where
  active releasing released : NumberStatus

pub record Capabilities : Type 0 where
  pub voice : Bool
  pub sms : Bool
  pub mms : Bool

pub record PhoneNumber : Type 0 where
  pub id : String
  pub user_id : String
  pub number : String
  pub provider_sid : String
  pub provider : String
  pub country_code : String
  pub capabilities : Capabilities
  pub status : NumberStatus
  pub monthly_cost : ℕ
  pub released_at : Option ℕ

pub record Provisioned : Type 0 where
  pub provider_sid : String
  pub number : String
  pub country_code : String
  pub capabilities : Capabilities

-- What the telephony provider does: a call that throws answers `none`, or `false`.
pub record Provider : Type 0 where
  pub name : String
  pub provision_number : String → Option Provisioned
  pub release_number : String → Bool

-- The tables, the cache (an entry for the number `n` stands under the key `number:n`), and the
-- numbers and sids that the provider has been asked to provision and to release.
pub record Store : Type 0 where
  pub numbers : List PhoneNumber
  pub subscriptions : List Subscription
  pub plans : List Plan
  pub cache : List (String × String)
  pub asked : List String
  pub released_sids : List String

abbrev pub is_active : NumberStatus → Bool
is_active active = true
is_active releasing = false
is_active released = false

abbrev pub is_releasing : NumberStatus → Bool
is_releasing active = false
is_releasing releasing = true
is_releasing released = false

-- The queries on the table.
unfoldable pub find_active : String → List PhoneNumber → Option PhoneNumber
find_active number = find_first (λ n. n.number == number && is_active n.status)

unfoldable pub find_owned : String → String → List PhoneNumber → Option PhoneNumber
find_owned id user_id = find_first (λ n. n.id == id && n.user_id == user_id)

-- `{ number, userId, status: 'active' }`, of the services that send and dial
unfoldable pub find_own_active : String → String → List PhoneNumber → Option PhoneNumber
find_own_active number user_id =
    find_first (λ n. n.number == number && n.user_id == user_id && is_active n.status)

unfoldable pub count_active : String → List PhoneNumber → ℕ
count_active user_id = count_where (λ n. n.user_id == user_id && is_active n.status)

unfoldable pub set_releasing : ℕ → String → List PhoneNumber → List PhoneNumber
set_releasing now id =
    update_where (λ n. n.id == id) (λ n. record n { status = releasing; released_at = some now })

-- The cache. A command that Redis does not answer has no effect and reads as null.
unfoldable pub cache_get : String → List (String × String) → Option String
cache_get k [] = none
cache_get k ((j, v) ∷ m) = if j == k then some v else cache_get k m

unfoldable pub cache_set : String → String → List (String × String) → List (String × String)
cache_set k v [] = (k, v) ∷ []
cache_set k v ((j, w) ∷ m) = if j == k then (k, v) ∷ m else (j, w) ∷ cache_set k v m

unfoldable pub cache_del : String → List (String × String) → List (String × String)
cache_del k [] = []
cache_del k ((j, v) ∷ m) = if j == k then cache_del k m else (j, v) ∷ cache_del k m

-- `redis` says whether Redis answers during the request.
module _ (p : Provider) (redis : Bool) where
  unfoldable pub get_my_numbers : String → Action Store (List PhoneNumber)
  get_my_numbers user_id = gets (λ s.
      find_many (λ n. n.user_id == user_id && (is_active n.status || is_releasing n.status))
        s.numbers)

  abbrev pub setex : String → String → Store → Store
  setex k v s = record s { cache = if redis then cache_set k v s.cache else s.cache }

  abbrev pub del : String → Store → Store
  del k s = record s { cache = if redis then cache_del k s.cache else s.cache }

  abbrev pub redis_get : String → Store → Option String
  redis_get k s = if redis then cache_get k s.cache else none

  abbrev pub new_number : String → String → Provisioned → PhoneNumber
  new_number row_id user_id v = record {
    id = row_id;
    user_id = user_id;
    number = v.number;
    provider_sid = v.provider_sid;
    provider = p.name;
    country_code = v.country_code;
    capabilities = v.capabilities;
    status = active;
    monthly_cost = 100;
    released_at = none;
  }

  -- `row_id` is the id that the new row is given.
  unfoldable pub provision_number : String → String → String → Action Store PhoneNumber
  provision_number row_id user_id number = do
    plan ← require (λ s. plan_of user_id s.subscriptions s.plans) (bad_request plan_limit_exceeded)
    active_numbers ← gets (λ s. count_active user_id s.numbers)
    throw_if (leb plan.max_numbers active_numbers) (bad_request plan_limit_exceeded)
    modify (λ s. record s { asked = insert_row number s.asked })
    provisioned ← or_throw (p.provision_number number) fault
    modify
        (λ s. record s { numbers = insert_row (new_number row_id user_id provisioned) s.numbers })
    modify (setex provisioned.number user_id)
    pure (new_number row_id user_id provisioned)

  -- the answer is the time of the release
  unfoldable pub release_number : ℕ → String → String → Action Store ℕ
  release_number now user_id number_id = do
    row ← require (λ s. find_owned number_id user_id s.numbers) (not_found_exception not_found)
    throw_if (not (is_active row.status)) (bad_request validation_error)
    modify (λ s. record s { released_sids = insert_row row.provider_sid s.released_sids })
    throw_if (not (p.release_number row.provider_sid)) fault
    modify (λ s. record s { numbers = set_releasing now number_id s.numbers })
    modify (del row.number)
    pure now

  found_user : String → Option PhoneNumber → Action Store (Option String)
  found_user number none = pure none
  found_user number (some row) = do modify (setex number row.user_id); pure (some row.user_id)

  -- An entry that is the empty text counts as none.
  unfoldable pub get_user_by_number : String → Action Store (Option String)
  unfolding found_user
  get_user_by_number number s =
      if truthy? (redis_get number s)
      then pure (redis_get number s) s
      else found_user number (find_active number s.numbers) s

  -- 7 days, in milliseconds
  abbrev pub grace : ℕ
  grace = 7 * 24 * 60 * 60 * 1000

  -- `status: 'releasing', releasedAt: { lte: cutoff }`, with the difference taken to the left
  abbrev pub is_expired : ℕ → PhoneNumber → Bool
  is_expired now n = elim n.released_at [
    | none ↦ false
    | some t ↦ is_releasing n.status && leb (t + grace) now
  ]

  -- The provider is asked once for each expired row, and a failure is passed over. The rows are
  -- updated by their ids.
  unfoldable pub grace_period_run : ℕ → Action Store (Unit {0})
  grace_period_run now = do
    expired ← gets (λ s. find_many (is_expired now) s.numbers)
    modify (λ s. record s { released_sids = s.released_sids ++ map (λ n. n.provider_sid) expired })
    modify (λ s. record s {
      numbers =
          update_where (λ n. exists_where (λ m. m.id == n.id) expired)
            (λ n. record n { status = released }) s.numbers;
    })
